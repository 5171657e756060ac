-- ===== src/Daemon/Setup/Safe.antt =====
-- With memory, and names that fit a `struct ifreq`, the set-ups return.
use pdrad.Prelude.{ℕ, ◌<◌, ◌≡◌, refl, Option, none, some, length}
use pdrad.Memory.{Bytes, done, Malloc}
use pdrad.Memory.Supply.{Supplies, Plentiful}
use pdrad.Interface.{Answer, ok, err}
use pdrad.Interface.Query.{name_stored}
use pdrad.Daemon.Start.{zeros_of}
use pdrad.Daemon.Setup.{
  Shared, Setup, enters, adv_bound, zeroed_buffer, sol_received, opening, named_request, setup_adv,
  mtu_of, setup_requester, requester_bound, setup_sol,
}

named_request_in :
    (m : Malloc) (name : Bytes)
    → Supplies m
    → length name < 40
    → (b : Bytes) × (named_request m name ≡ done b)
named_request_in m name v h =
    let (b, e) = v 40 in
    let (b', p, q) = name_stored name b h (m.length-alloc 40 e) in (b', rw (e, p))

pub setup_adv_in :
    (s : Shared) (name : Bytes) (socket : Option ℕ) (m : Malloc) (setsockopt : Answer (Unit {0}))
    → Supplies m
    → length name < 40
    → (r : Setup ℕ) × (setup_adv s name socket m setsockopt ≡ done r)
unfolding setup_adv
setup_adv_in s name none m setsockopt v h = (_, refl)
setup_adv_in s name (some k) m setsockopt v h =
    let (b, p) = named_request_in m name v h in (adv_bound (opening k s) k setsockopt, rw p)

requester_bound_in :
    (s : Shared) (h : ℕ) (m : Malloc) (setsockopt bind : Answer (Unit {0})) (mtu : Answer ℕ)
    → Supplies m
    → (r : Setup (ℕ × Bytes)) × (requester_bound s h m setsockopt bind mtu ≡ done r)
requester_bound_in s h m (err e) bind mtu v = (_, refl)
requester_bound_in s h m (ok u) (err e) mtu v = (_, refl)
requester_bound_in s h m (ok u) (ok u') mtu v =
    let (b, p) = v (mtu_of mtu) in (enters s (h, zeroed_buffer b), rw p)

pub setup_requester_in :
    (s : Shared) (name : Bytes) (socket : Option ℕ) (ms : ℕ → Malloc)
    (setsockopt bind : Answer (Unit {0})) (mtu : Answer ℕ)
    → Plentiful ms
    → length name < 40
    → (r : Setup (ℕ × Bytes)) × (setup_requester s name socket ms setsockopt bind mtu ≡ done r)
unfolding setup_requester
setup_requester_in s name none ms setsockopt bind mtu v h = (_, refl)
setup_requester_in s name (some k) ms setsockopt bind mtu v h =
    let (b, p) = named_request_in (ms 0) name (v 0) h in
    let (r, q) = requester_bound_in (opening k s) k (ms 1) setsockopt bind mtu (v 1) in (r, rw p q)

-- The kernel answers with no error.
abbrev pub Succeeds : Answer (Unit {0}) → Type 0
Succeeds (ok _) = Unit
Succeeds (err e) = ⊥

sol_received_in :
    (s : Shared) (h k : ℕ) (receiving sending join bind : Answer (Unit {0}))
    → Succeeds bind
    → (r : Setup ℕ) × (sol_received s h k receiving sending join bind ≡ done r)
sol_received_in s h k (err e) sending join bind v = (_, refl)
sol_received_in s h k (ok u) (err e) join bind v = (_, refl)
sol_received_in s h k (ok u) (ok u') (err e) bind v = (_, refl)
sol_received_in s h k (ok u) (ok u') (ok u'') (ok w) v = (_, refl)
sol_received_in s h k (ok u) (ok u') (ok u'') (err e) v = absurd v

pub setup_sol_in :
    (s : Shared) (name : Bytes) (h k : Option ℕ) (receiving sending join bind : Answer (Unit {0}))
    → Succeeds bind
    → length name < 40
    → (r : Setup ℕ) × (setup_sol s name h k receiving sending join bind ≡ done r)
unfolding setup_sol
setup_sol_in s name none k receiving sending join bind b v = (_, refl)
setup_sol_in s name (some h) none receiving sending join bind b v = (_, refl)
setup_sol_in s name (some h) (some k) receiving sending join bind u v =
    let (b, p, q) = name_stored name (zeros_of 40) v refl in
    let (r, e) = sol_received_in (opening k (opening h s)) h k receiving sending join bind u in
    (r, rw p e)
