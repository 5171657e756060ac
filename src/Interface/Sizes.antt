-- ===== src/Interface/Sizes.antt =====
-- The queries keep the size of the request and of the caller's arrays, and can always return.
use pdrad.Prelude.{ℕ, ◌≤◌, ◌≡◌, refl, ap, ◌∙◌, Bool-cases, inl, inr, arith, length}
use pdrad.Memory.{Bytes, done, ◌>>=◌, read, le32, store32}
use pdrad.Memory.Access.{write_in, read_in}
use pdrad.Memory.Ensures.{
  Ensures, Ensures-eq, length-read, returns, Ensures->>=, Ensures->>=_of, length-write,
}
use pdrad.Interface.Calls.{connected-keeps}
use pdrad.Interface.{
  deref_request, Answer, ok, err, Request, null, freed, live, Interface, ebadf, is_valid,
  on_handler, hardware_answer, get_hardware_address, named, connected, get_link_local_address,
}

-- A `struct ifreq` to use.
abbrev pub HasRequest : Request → Type 0
HasRequest null = ⊥
HasRequest freed = ⊥
HasRequest (live b) = length b ≡ 40

-- `getsockname` gives a whole address.
abbrev pub IsAddress : Answer Bytes → Type 0
IsAddress (ok addr) = length addr ≡ 16
IsAddress (err e) = Unit

named-length : (s : Interface) (a : Answer Bytes) → IsAddress a → length (named s a).1 ≡ 16
named-length s (ok addr) h = h
named-length s (err e) h = refl

on_handler-IsAddress : (s : Interface) (a : Answer Bytes) → IsAddress a → IsAddress (on_handler s a)
on_handler-IsAddress s a h = elim (Bool-cases (is_valid s)) [
  | inl is ↦ rw is h
  | inr not ↦ rw not tt
]

connected-length :
    (s : Interface) (address : Bytes) (c : Answer (Unit {0})) (a : Answer Bytes)
    → length address ≡ 16
    → IsAddress a
    → length (connected s address c a).1 ≡ 16
connected-length s address (err e) a h k = h
connected-length s address (ok u) a h k =
    named-length s (on_handler s a) (on_handler-IsAddress s a k)

pub length-get_link_local_address :
    (s : Interface) (address : Bytes) (connect : Answer (Unit {0})) (getsockname : Answer Bytes)
    → length address ≡ 16
    → IsAddress getsockname
    → length (get_link_local_address s address connect getsockname).1 ≡ 16
unfolding get_link_local_address
length-get_link_local_address s address connect getsockname h k =
    connected-length s address (on_handler s connect) getsockname h k

-- What a query of the hardware address leaves.
abbrev pub Sized : Bytes → ℕ × Bytes × Interface → Type 0
Sized hw_address o = (length o.1 ≡ length hw_address) × HasRequest o.2.request

hardware_answer-Sized :
    (s : Interface) (b hw_address : Bytes) (a : Answer Bytes)
    → length b ≡ 40
    → Ensures (Sized hw_address) (hardware_answer s b hw_address a)
hardware_answer-Sized s b hw_address (err e) h = returns (refl, h)
hardware_answer-Sized s b hw_address (ok union) h = Ensures->>=_of (length-write b 16 union) λ r k.
    Ensures->>= (read r 18 6)
      λ d. Ensures->>=_of (length-write hw_address 0 d) λ hw l. returns (l, k ∙ h)

pub get_hardware_address-Sized :
    (s : Interface) (r : Request) (hw_address : Bytes) (ioctl : Answer Bytes)
    → s.request ≡ r
    → HasRequest r
    → Ensures (Sized hw_address) (get_hardware_address s hw_address ioctl)
unfolding get_hardware_address
get_hardware_address-Sized s null hw_address ioctl e h = absurd h
get_hardware_address-Sized s freed hw_address ioctl e h = absurd h
get_hardware_address-Sized s (live b) hw_address ioctl e h = rw e (
    Ensures->>=_of (length-write b 16 (le32 0))
      λ b' k. hardware_answer-Sized s b' hw_address (on_handler s ioctl) (k ∙ h))

abbrev failed : Answer Bytes
failed = err ebadf

on_handler-failed : (s : Interface) → on_handler s failed ≡ failed
on_handler-failed s = elim (Bool-cases (is_valid s)) [ inl is ↦ rw is | inr not ↦ rw not ]

-- The union of a `struct ifreq`.
abbrev pub IsUnion : Answer Bytes → Type 0
IsUnion (ok union) = length union ≡ 24
IsUnion (err e) = Unit

on_handler-IsUnion : (s : Interface) (a : Answer Bytes) → IsUnion a → IsUnion (on_handler s a)
on_handler-IsUnion s a h = elim (Bool-cases (is_valid s)) [ inl is ↦ rw is h | inr not ↦ rw not tt ]

hardware_answer_in :
    (s : Interface) (b hw_address : Bytes) (a : Answer Bytes)
    → length b ≡ 40
    → 6 ≤ length hw_address
    → IsUnion a
    → (o : ℕ × Bytes × Interface) × (hardware_answer s b hw_address a ≡ done o)
hardware_answer_in s b hw_address (err e) h l u = (_, refl)
hardware_answer_in s b hw_address (ok union) h l u =
    let (r, p, q) = write_in b 16 union (omega arith) in
    let (d, e) = read_in r 18 6 (omega arith) in
    let n = Ensures-eq (length-read r 18 6) e in
    let (hw, k, m) = write_in hw_address 0 d (omega arith) in
    ((0, hw, record s { request = live r }), rw (p, e, k))

-- A query on a request to use returns, for an array of six bytes at least.
pub get_hardware_address_in :
    (s : Interface) (r : Request) (hw_address : Bytes) (ioctl : Answer Bytes)
    → s.request ≡ r
    → HasRequest r
    → 6 ≤ length hw_address
    → IsUnion ioctl
    → (o : ℕ × Bytes × Interface) × (get_hardware_address s hw_address ioctl ≡ done o)
unfolding get_hardware_address
get_hardware_address_in s null hw_address ioctl e h l u = absurd h
get_hardware_address_in s freed hw_address ioctl e h l u = absurd h
get_hardware_address_in s (live b) hw_address ioctl e h l u =
    let (b', p, q) = write_in b 16 (le32 0) (omega (arith, h)) in
    let (o, k) =
      hardware_answer_in s b' hw_address (on_handler s ioctl) (q ∙ h) l
        (on_handler-IsUnion s ioctl u) in
    (
      o,
      ap
            (λ x. deref_request x >>= λ request. store32 request 16 0 >>= λ request'.
              hardware_answer s request' hw_address (on_handler s ioctl))
            e
          ∙ (rw p k),
    )

-- A query whose `ioctl` fails returns.
pub get_hardware_address_total :
    (s : Interface) (r : Request) (hw_address : Bytes)
    → s.request ≡ r
    → HasRequest r
    → (o : ℕ × Bytes × Interface) × (get_hardware_address s hw_address (err ebadf) ≡ done o)
unfolding get_hardware_address
get_hardware_address_total s null hw_address e h = absurd h
get_hardware_address_total s freed hw_address e h = absurd h
get_hardware_address_total s (live b) hw_address e h =
    let (b', p, q) = write_in b 16 (le32 0) (omega (arith, h)) in
    ((ebadf, hw_address, record s { request = live b' }), rw (e, p, on_handler-failed s))

pub query-HasRequest :
    (s : Interface) (address : Bytes) (connect : Answer (Unit {0})) (getsockname : Answer Bytes)
    → HasRequest s.request
    → HasRequest (get_link_local_address s address connect getsockname).2.request
unfolding get_link_local_address
query-HasRequest s address connect getsockname h =
    connected-keeps (λ i. HasRequest i.request) s address (on_handler s connect) getsockname h h
