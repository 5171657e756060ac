-- ===== src/Daemon/Program/Simulation.antt =====
-- What the process does is something that the threads of Daemon/Threads can do.
use pdrad.Prelude.{ℕ, ◌≡◌, refl, [], ◌∷◌, ◌++◌, Option, none, some, true}
use pdrad.Memory.{Bytes, Malloc}
use pdrad.Memory.Ensures.{Ensures, returns, Ensures-eq, Ensures->>=}
use pdrad.Memory.{deref, write}
use pdrad.Interface.{Answer, ok, err}
use pdrad.Daemon.Start.{zeros_of}
use pdrad.Daemon.Setup.{
  Shared, Setup, exits, returns_with, enters, opening, named_request, adv_bound, mtu_of,
  requester_bound, sol_received, setup_adv, setup_requester, setup_sol,
}
use pdrad.Daemon.Threads.{
  adv, sol, Thread, requester, announcer, request, raise, hold, holding, Reach, here, later,
}
use pdrad.Daemon.Threads.Ready.{Reach-trans}
use pdrad.Daemon.Program.{
  Program, shared, flags_of, after_requester, after_adv, after_sol, Move, loop_step, ask, ask_exits,
  loop_end, set_up_requester, set_up_unnamed, set_up_adv, set_up_sol, create, main_returns, crash,
  handle, Runs, stays, then_move,
}

-- The set-up leaves the flags that were set.
abbrev Keeps : Shared → Shared → Type 0
Keeps s s' = (t : Thread) → flags_of s t ≡ true → flags_of s' t ≡ true

abbrev pub SetupKeeps : {A : Type 0} → Shared → Setup A → Type 0
SetupKeeps s exits = Unit
SetupKeeps s (returns_with s') = Keeps s s'
SetupKeeps s (enters s' a) = Keeps s s'

raised_adv : (s : Shared) → Keeps s (record s { adv_cancelled = true })
raised_adv s requester e = e
raised_adv s (announcer adv) e = refl
raised_adv s (announcer sol) e = e

raised_requester : (s : Shared) → Keeps s (record s { requester_cancelled = true })
raised_requester s requester e = refl
raised_requester s (announcer adv) e = e
raised_requester s (announcer sol) e = e

same_flags : (s : Shared) → Keeps s s
same_flags s t e = e

adv_bound-Keeps :
    (s : Shared) (h : ℕ) (r : Answer (Unit {0})) → SetupKeeps s (adv_bound (opening h s) h r)
adv_bound-Keeps s h (ok u) = same_flags s
adv_bound-Keeps s h (err e) = raised_adv s

setup_adv-Keeps :
    (s : Shared) (name : Bytes) (socket : Option ℕ) (m : Malloc) (r : Answer (Unit {0}))
    → Ensures (SetupKeeps s) (setup_adv s name socket m r)
unfolding setup_adv
setup_adv-Keeps s name none m r = returns (raised_adv s)
setup_adv-Keeps s name (some h) m r =
    Ensures->>= (named_request m name) λ b. returns (adv_bound-Keeps s h r)

requester_bound-Keeps :
    (s : Shared) (h : ℕ) (m : Malloc) (setsockopt bind : Answer (Unit {0})) (mtu : Answer ℕ)
    → Ensures (SetupKeeps s) (requester_bound (opening h s) h m setsockopt bind mtu)
requester_bound-Keeps s h m (err e) bind mtu = returns (same_flags s)
requester_bound-Keeps s h m (ok u) (err e) mtu = returns (same_flags s)
requester_bound-Keeps s h m (ok u) (ok u') mtu =
    Ensures->>= (deref (m.alloc (mtu_of mtu))) λ b. returns (same_flags s)

setup_requester-Keeps :
    (s : Shared) (name : Bytes) (socket : Option ℕ) (ms : ℕ → Malloc)
    (setsockopt bind : Answer (Unit {0})) (mtu : Answer ℕ)
    → Ensures (SetupKeeps s) (setup_requester s name socket ms setsockopt bind mtu)
unfolding setup_requester
setup_requester-Keeps s name none ms setsockopt bind mtu = returns (raised_requester s)
setup_requester-Keeps s name (some h) ms setsockopt bind mtu =
    Ensures->>= (named_request (ms 0) name)
      λ b. requester_bound-Keeps s h (ms 1) setsockopt bind mtu

sol_received-Keeps :
    (s : Shared) (h k : ℕ) (receiving sending join bind : Answer (Unit {0}))
    → Ensures
        (SetupKeeps s)
        (sol_received (opening k (opening h s)) h k receiving sending join bind)
sol_received-Keeps s h k (err e) sending join bind = returns (same_flags s)
sol_received-Keeps s h k (ok u) (err e) join bind = returns (same_flags s)
sol_received-Keeps s h k (ok u) (ok u') (err e) bind = returns (same_flags s)
sol_received-Keeps s h k (ok u) (ok u') (ok u'') (ok w) = returns (same_flags s)
sol_received-Keeps s h k (ok u) (ok u') (ok u'') (err e) = Ensures.faults

setup_sol-Keeps :
    (s : Shared) (name : Bytes) (h k : Option ℕ) (receiving sending join bind : Answer (Unit {0}))
    → Ensures (SetupKeeps s) (setup_sol s name h k receiving sending join bind)
unfolding setup_sol
setup_sol-Keeps s name none k receiving sending join bind = returns tt
setup_sol-Keeps s name (some h) none receiving sending join bind = returns tt
setup_sol-Keeps s name (some h) (some k) receiving sending join bind =
    Ensures->>= (write (zeros_of 40) 0 (name ++ 0 ∷ []))
      λ b. sol_received-Keeps s h k receiving sending join bind

flags_shared :
    (p : Program) (t : Thread) → p.system.cancelled t ≡ true → flags_of (shared p) t ≡ true
flags_shared p requester e = e
flags_shared p (announcer adv) e = e
flags_shared p (announcer sol) e = e

flags_step :
    (p : Program) (s : Shared)
    → Keeps (shared p) s
    → Reach p.system (holding s.opened (record p.system { cancelled = flags_of s }))
flags_step p s k =
    later (later here (raise (flags_of s) (λ t e. k t (flags_shared p t e)))) (hold s.opened)

after_requester-Reach :
    (p : Program) (r : Setup (ℕ × Bytes))
    → SetupKeeps (shared p) r
    → Reach p.system (after_requester p r).system
after_requester-Reach p exits k = here
after_requester-Reach p (returns_with s) k = flags_step p s k
after_requester-Reach p (enters s (h, b)) k = flags_step p s k

after_adv-Reach :
    (p : Program) (r : Setup ℕ) → SetupKeeps (shared p) r → Reach p.system (after_adv p r).system
after_adv-Reach p exits k = here
after_adv-Reach p (returns_with s) k = flags_step p s k
after_adv-Reach p (enters s h) k = flags_step p s k

after_sol-Reach :
    (p : Program) (o : Option ℕ) (r : Setup ℕ)
    → SetupKeeps (shared p) r
    → Reach p.system (after_sol p o r).system
after_sol-Reach p o exits k = here
after_sol-Reach p o (returns_with s) k = flags_step p s k
after_sol-Reach p o (enters s h) k = flags_step p s k

pub Move-Reach : {p q : Program} → Move p q → Reach p.system q.system
Move-Reach (loop_step t st e l h) = later here st
Move-Reach {p} (ask node_fits base ms env net l h o e r) =
    later (later here (request node_fits base ms env net p.buffer e r)) (hold _)
Move-Reach (ask_exits node_fits base ms env net l h e r) = here
Move-Reach (loop_end t st e l h) = later (later here st) (hold _)
Move-Reach {p} (set_up_requester socket ms setsockopt bind mtu {name} {r} l h w n e) =
    after_requester-Reach p r
      (Ensures-eq (setup_requester-Keeps (shared p) name socket ms setsockopt bind mtu) e)
Move-Reach {p} (set_up_unnamed l h w) =
    flags_step p (record (shared p) { requester_cancelled = true }) (raised_requester (shared p))
Move-Reach {p} (set_up_adv socket m setsockopt {r} l h n e) =
    after_adv-Reach p r (Ensures-eq (setup_adv-Keeps (shared p) p.lan socket m setsockopt) e)
Move-Reach {p} (set_up_sol receiving sending b c d j {r} l h n n' e) =
    after_sol-Reach p sending r
      (Ensures-eq (setup_sol-Keeps (shared p) p.lan receiving sending b c d j) e)
Move-Reach (create st e w) = later here st
Move-Reach (main_returns w o) = here
Move-Reach (crash g f) = here
Move-Reach (handle st e l) = later here st

-- What the process does, with `main`, the creation of its threads, their set-ups, their sockets
-- and their ends, the threads of Daemon/Threads can do by their steps on the prefix, the mutex,
-- the flags, the interface and the messages.
pub Runs-Reach : {p q : Program} → Runs p q → Reach p.system q.system
Runs-Reach stays = here
Runs-Reach (then_move r m) = Reach-trans (Runs-Reach r) (Move-Reach m)
