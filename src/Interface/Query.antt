-- ===== src/Interface/Query.antt =====
-- A query of the hardware address after `utils_Init`.
use pdrad.Prelude.{
  ℕ, ◌<◌, ◌≡◌, inl, inr, ◌∙◌, [], ◌∷◌, ◌++◌, Option, some, Bool-cases, arith, length, length-append,
}
use pdrad.Memory.{Bytes, Run, done, fault, Fault, ◌>>=◌, Malloc, write}
use pdrad.Memory.Access.{write_in}
use pdrad.Memory.Laws.{entries_lem}
use pdrad.Interface.{
  Answer, ok, err, open_with, freed, live, Interface, not_started, is_valid, open_with, on_handler,
  get_hardware_address, bound, init,
}
use pdrad.Interface.Calls.{among_self}

-- `utils_Init`, then `utils_getHardwareAddressByName`.
abbrev pub init_then_query :
    Bytes → Option ℕ → Malloc → Answer (Unit {0}) → Bytes → Answer Bytes → Run (ℕ × Bytes)
init_then_query name socket m setsockopt hw_address ioctl =
    init not_started name socket m setsockopt >>= λ started.
    get_hardware_address started.1 hw_address ioctl >>= λ found. done (found.0, found.1)

pub name_stored :
    (name b : Bytes)
    → length name < 40
    → length b ≡ 40
    → (b' : Bytes) × (write b 0 (name ++ 0 ∷ []) ≡ done b') × (length b' ≡ 40)
name_stored name b h l =
    let (b', p, q) = write_in b 0 (name ++ 0 ∷ []) (omega (arith, length-append name (0 ∷ []))) in
    (b', p, q ∙ l)

bound_failed : (s : Interface) (e : ℕ) → (bound s (on_handler s (err e))).1.request ≡ freed
bound_failed s e = elim (Bool-cases (is_valid s)) [ inl is ↦ rw is | inr not ↦ rw not ]

hardware_freed :
    (s : Interface) (hw_address : Bytes) (ioctl : Answer Bytes)
    → s.request ≡ freed
    → get_hardware_address s hw_address ioctl ≡ fault Fault.dangling_pointer
unfolding get_hardware_address
hardware_freed s hw_address ioctl e = rw e

-- If `utils_Init` gets a descriptor, memory and its interface, whose name is shorter than 40
-- bytes, and `ioctl` answers a hardware address of 6 bytes behind the two of its family, then
-- `utils_getHardwareAddressByName` returns 0 and stores those 6 bytes at the start of the caller's
-- array.
pub init-get_hardware_address :
    (name mac family rest extra : Bytes) (h : ℕ) (m : Malloc) (old : Bytes) {b : Bytes}
    → length name < 40
    → m.alloc 40 ≡ some b
    → length family ≡ 2
    → length mac ≡ 6
    → length rest ≡ 16
    → length old ≡ 6
    → init_then_query name (some h) m (ok tt) (old ++ extra) (ok (family ++ (mac ++ rest)))
      ≡ done (0, mac ++ extra)
unfolding init get_hardware_address
init-get_hardware_address name mac family rest extra h m old {b} hn e hf hm hr ho =
    let (b', hb, size) = name_stored name b hn (m.length-alloc 40 e) in
    rw (e, hb, among_self h)
      (rw (
        among_self h,
        entries_lem 40 b' size,
        entries_lem 2 family hf,
        entries_lem 6 mac hm,
        entries_lem 16 rest hr,
        entries_lem 6 old ho,
      ))

-- If `utils_Init`, with a name shorter than 40 bytes and memory for its request, cannot bind the
-- interface, then the next `utils_getHardwareAddressByName` uses the request that was freed,
-- whatever `socket` and `ioctl` answer.
pub init-get_hardware_address_failed :
    (name hw_address : Bytes) (socket : Option ℕ) (m : Malloc) (e : ℕ) (ioctl : Answer Bytes)
    {b : Bytes}
    → length name < 40
    → m.alloc 40 ≡ some b
    → init_then_query name socket m (err e) hw_address ioctl ≡ fault Fault.dangling_pointer
unfolding init
init-get_hardware_address_failed name hw_address socket m e ioctl {b} hn q =
    let (b', hb, size) = name_stored name b hn (m.length-alloc 40 q) in
    let s : Interface = record {
      handler = socket;
      request = live b';
      opened = open_with socket [];
      others = [];
    } in
    rw
      (q, hb, hardware_freed (bound s (on_handler s (err e))).1 hw_address ioctl (bound_failed s e))
