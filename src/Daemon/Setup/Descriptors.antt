-- ===== src/Daemon/Setup/Descriptors.antt =====
-- Which descriptors are left open.
use pdrad.Prelude.{
  ℕ, ap, subst, sym, ◌∙◌, ◌<◌, ◌≡◌, ◌≢◌, refl, List, [], ◌∷◌, some, true, arith, length, All,
}
use pdrad.Memory.{Bytes, Run, Fault, done, fault, ◌>>=◌, Malloc}
use pdrad.Interface.{Answer, ok, err, remove}
use pdrad.Interface.Query.{name_stored}
use pdrad.Daemon.Start.{zeros_of}
use pdrad.Daemon.Setup.{
  Shared, Setup, exits, returns_with, enters, opening, closing, mtu_of, setup_adv, setup_requester,
  setup_sol, adv_bound, requester_bound, requester_addressed, sol_received, zeroed_buffer,
}

-- The kernel gives a descriptor that is not in use.
abbrev pub Fresh : ℕ → List ℕ → Type 0
Fresh h xs = All (λ (x : ℕ). h ≢ x) xs

remove-Fresh : (h : ℕ) (xs : List ℕ) → Fresh h xs → remove h xs ≡ xs
remove-Fresh h [] v = refl
remove-Fresh h (x ∷ xs) (n, v) = ground (arith, remove-Fresh h xs v)

remove_self : (h : ℕ) (xs : List ℕ) → Fresh h xs → remove h (h ∷ xs) ≡ xs
remove_self h xs v = ground (arith, remove-Fresh h xs v)

-- How `Thread_sendRouterAdv` ends its set-up: with its socket, or cancelled with nothing left open.
abbrev pub AdvEnds : Shared → Setup ℕ → Type 0
AdvEnds s exits = ⊥
AdvEnds s (returns_with t) = (t.opened ≡ s.opened) × (t.adv_cancelled ≡ true)
AdvEnds s (enters t h) = t ≡ opening h s

-- `Thread_requestDhcpPrefix`: with its socket and a buffer of zeros, or with nothing left open.
abbrev pub RequesterEnds : Shared → ℕ → Setup (ℕ × Bytes) → Type 0
RequesterEnds s mtu exits = ⊥
RequesterEnds s mtu (returns_with t) = t.opened ≡ s.opened
RequesterEnds s mtu (enters t (h, b)) = (t ≡ opening h s) × (b ≡ zeros_of mtu)

-- `Thread_listenRouterSolicit` with the sockets `h` and `k`, on what the kernel answers in turn: it
-- returns with the other socket open and its flag as it was, or it comes to its loop, or it formats
-- the message of the failed `bind`.
abbrev pub SolEnds :
    Shared
    → ℕ
    → ℕ
    → Answer (Unit {0})
    → Answer (Unit {0})
    → Answer (Unit {0})
    → Answer (Unit {0})
    → Run (Setup ℕ)
    → Type 0
SolEnds s h k (err e) sending join bind r =
    r ≡ done (returns_with (record s { opened = k ∷ s.opened }))
SolEnds s h k (ok _) (err e) join bind r =
    r ≡ done (returns_with (record s { opened = h ∷ s.opened }))
SolEnds s h k (ok _) (ok _) (err e) bind r =
    r ≡ done (returns_with (record s { opened = k ∷ s.opened }))
SolEnds s h k (ok _) (ok _) (ok _) (ok _) r =
    r ≡ done (enters (record s { opened = k ∷ h ∷ s.opened }) h)
SolEnds s h k (ok _) (ok _) (ok _) (err e) r = r ≡ fault Fault.missing_argument

zeroed_lem : (b : Bytes) → zeroed_buffer b ≡ zeros_of (length b)
zeroed_lem [] = refl
zeroed_lem (x ∷ b) = ap (λ r. 0 ∷ r) (zeroed_lem b)

module _ (s : Shared) (name : Bytes) (short : length name < 40) where
  adv_bound-AdvEnds :
      (h : ℕ) (r : Answer (Unit {0})) → Fresh h s.opened → AdvEnds s (adv_bound (opening h s) h r)
  adv_bound-AdvEnds h (ok u) v = refl
  adv_bound-AdvEnds h (err e) v = (remove_self h s.opened v, refl)

  setup_adv-AdvEnds :
      (h : ℕ) (m : Malloc) (setsockopt : Answer (Unit {0})) {b : Bytes}
      → m.alloc 40 ≡ some b
      → Fresh h s.opened
      → (r : Setup ℕ) × (setup_adv s name (some h) m setsockopt ≡ done r) × AdvEnds s r
  unfolding setup_adv
  setup_adv-AdvEnds h m setsockopt {b} e v =
      let (b', p, q) = name_stored name b short (m.length-alloc 40 e) in
      (adv_bound (opening h s) h setsockopt, rw (e, p), adv_bound-AdvEnds h setsockopt v)

  requester_addressed-Ends :
      (h : ℕ) (m : Malloc) (bind : Answer (Unit {0})) (mtu : Answer ℕ) {b : Bytes}
      → m.alloc (mtu_of mtu) ≡ some b
      → Fresh h s.opened
      → (r : Setup (ℕ × Bytes)) × (requester_addressed (opening h s) h m bind mtu ≡ done r)
        × RequesterEnds s (mtu_of mtu) r
  requester_addressed-Ends h m (ok u) mtu {b} e v = (
    enters (opening h s) (h, zeroed_buffer b),
    rw e,
    (refl, zeroed_lem b ∙ ap zeros_of (m.length-alloc (mtu_of mtu) e)),
  )
  requester_addressed-Ends h m (err f) mtu e v =
      (returns_with (closing h (opening h s)), refl, remove_self h s.opened v)

  requester_bound-Ends :
      (h : ℕ) (m : Malloc) (setsockopt bind : Answer (Unit {0})) (mtu : Answer ℕ) {b : Bytes}
      → m.alloc (mtu_of mtu) ≡ some b
      → Fresh h s.opened
      → (r : Setup (ℕ × Bytes)) × (requester_bound (opening h s) h m setsockopt bind mtu ≡ done r)
        × RequesterEnds s (mtu_of mtu) r
  requester_bound-Ends h m (ok u) bind mtu e v = requester_addressed-Ends h m bind mtu e v
  requester_bound-Ends h m (err f) bind mtu e v =
      (returns_with (closing h (opening h s)), refl, remove_self h s.opened v)

  setup_requester-RequesterEnds :
      (h : ℕ) (ms : ℕ → Malloc) (setsockopt bind : Answer (Unit {0})) (mtu : Answer ℕ) {b c : Bytes}
      → (ms 0).alloc 40 ≡ some b
      → (ms 1).alloc (mtu_of mtu) ≡ some c
      → Fresh h s.opened
      → (r : Setup (ℕ × Bytes)) × (setup_requester s name (some h) ms setsockopt bind mtu ≡ done r)
        × RequesterEnds s (mtu_of mtu) r
  unfolding setup_requester
  setup_requester-RequesterEnds h ms setsockopt bind mtu {b} e k v =
      let (b', p, q) = name_stored name b short ((ms 0).length-alloc 40 e) in
      let (r, ends, w) = requester_bound-Ends h (ms 1) setsockopt bind mtu k v in
      (r, rw (e, p) ends, w)

  -- With a socket whose descriptor was not in use, memory, and a name of the interface shorter
  -- than 40 bytes, whatever the kernel answers: `Thread_sendRouterAdv` comes to its loop with that
  -- socket open, or returns with its flag set and the descriptors as they were;
  -- `Thread_requestDhcpPrefix` comes to its loop with that socket and a buffer of zeros as long as
  -- the MTU, or returns with the descriptors as they were.
  pub setup_closes :
      (h : ℕ) (ms : ℕ → Malloc) (setsockopt bind : Answer (Unit {0})) (mtu : Answer ℕ) {b c : Bytes}
      → (ms 0).alloc 40 ≡ some b
      → (ms 1).alloc (mtu_of mtu) ≡ some c
      → Fresh h s.opened
      → ((r : Setup ℕ) × (setup_adv s name (some h) (ms 0) setsockopt ≡ done r) × AdvEnds s r)
        × ((r : Setup (ℕ × Bytes)) × (setup_requester s name (some h) ms setsockopt bind mtu
              ≡ done r)
            × RequesterEnds s (mtu_of mtu) r)
  setup_closes h ms setsockopt bind mtu e k v = (
    setup_adv-AdvEnds h (ms 0) setsockopt e v,
    setup_requester-RequesterEnds h ms setsockopt bind mtu e k v,
  )

  remove_first :
      (h k : ℕ)
      → Fresh h s.opened
      → Fresh k (h ∷ s.opened)
      → closing h (opening k (opening h s)) ≡ record s { opened = k ∷ s.opened }
  remove_first h k v (n, w) =
      ap (λ xs. record s { opened = xs }) (ground (arith, remove-Fresh h s.opened v))

  sol-SolEnds :
      (h k : ℕ) (receiving sending join bind : Answer (Unit {0}))
      → Fresh h s.opened
      → Fresh k (h ∷ s.opened)
      → SolEnds s h k receiving sending join bind
          (sol_received (opening k (opening h s)) h k receiving sending join bind)
  sol-SolEnds h k (err e) sending join bind v w =
      ap (λ t. done (returns_with t)) (remove_first h k v w)
  sol-SolEnds h k (ok u) (err e) join bind v w =
      ap (λ xs. done (returns_with (record s { opened = xs }))) (remove_self k (h ∷ s.opened) w)
  sol-SolEnds h k (ok u) (ok u') (err e) bind v w =
      ap (λ t. done (returns_with t)) (remove_first h k v w)
  sol-SolEnds h k (ok u) (ok u') (ok u'') (ok b) v w = refl
  sol-SolEnds h k (ok u) (ok u') (ok u'') (err e) v w = refl

  -- With two sockets, whose descriptors were not in use, and a name of the interface shorter than
  -- 40 bytes: if `setsockopt` fails on the first socket or when that joins the multicast group,
  -- `Thread_listenRouterSolicit` returns with the second socket open, and if it fails on the
  -- second, with the first, in each case with the flags as they were; if all succeed and `bind`
  -- does, it comes to its loop on the first socket with both open; and if `bind` fails, it reads
  -- an argument that its log message was not given.
  pub setup_sol-SolEnds :
      (h k : ℕ) (receiving sending join bind : Answer (Unit {0}))
      → Fresh h s.opened
      → Fresh k (h ∷ s.opened)
      → SolEnds s h k receiving sending join bind
          (setup_sol s name (some h) (some k) receiving sending join bind)
  unfolding setup_sol
  setup_sol-SolEnds h k receiving sending join bind v w =
      let (b', p, q) = name_stored name (zeros_of 40) short refl in
      subst (SolEnds s h k receiving sending join bind)
        (sym (
          ap
            (λ r. r >>= λ request.
              sol_received (opening k (opening h s)) h k receiving sending join bind)
            p))
        (sol-SolEnds h k receiving sending join bind v w)
