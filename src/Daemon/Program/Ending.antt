-- ===== src/Daemon/Program/Ending.antt =====
-- Once the signal handler has run while `main` watches the flags, `main` can return.
use pdrad.Prelude.{ℕ, ◌≡◌, refl, ◌⊎◌, inl, inr, Option, true}
use pdrad.Memory.{Bytes}
use pdrad.Daemon.Setup.{Setup, exits, returns_with, enters}
use pdrad.Daemon.Threads.{Thread, announcer, sol, System, Step, raise, signal, Reach, here, later}
use pdrad.Daemon.Program.{
  Stage, IsGoing, watching, over, Program, handles, kind, after_requester, after_adv, after_sol,
  Move, ask_exits, set_up_requester, set_up_unnamed, set_up_adv, crash, set_up_sol, create,
  main_returns, Runs, stays, then_move,
}
use pdrad.Daemon.Program.Kinds.{cancels_on}
use pdrad.Daemon.Program.Simulation.{Runs-Reach}

-- A flag stays set.
Step-cancelled :
    {s t : System} (x : Thread) → Step s t → s.cancelled x ≡ true → t.cancelled x ≡ true
Step-cancelled x (raise flags up) e = up x e
Step-cancelled x signal e = refl
Step-cancelled x _ e = e

Reach-cancelled :
    {s t : System} (x : Thread) → Reach s t → s.cancelled x ≡ true → t.cancelled x ≡ true
Reach-cancelled x here e = e
Reach-cancelled x (later r st) e = Step-cancelled x st (Reach-cancelled x r e)

-- `main` has left its first loop.
abbrev IsPast : Stage → Type 0
IsPast x = (IsGoing x → ⊥) ⊎ (x ≡ watching)

after_requester-IsPast :
    (p : Program) (r : Setup (ℕ × Bytes)) → IsPast p.stage → IsPast (after_requester p r).stage
after_requester-IsPast p exits v = inl (λ h. h)
after_requester-IsPast p (returns_with s) v = v
after_requester-IsPast p (enters s (h, b)) v = v

after_adv-IsPast : (p : Program) (r : Setup ℕ) → IsPast p.stage → IsPast (after_adv p r).stage
after_adv-IsPast p exits v = inl (λ h. h)
after_adv-IsPast p (returns_with s) v = v
after_adv-IsPast p (enters s h) v = v

after_sol-IsPast :
    (p : Program) (k : Option ℕ) (r : Setup ℕ) → IsPast p.stage → IsPast (after_sol p k r).stage
after_sol-IsPast p k exits v = inl (λ h. h)
after_sol-IsPast p k (returns_with s) v = v
after_sol-IsPast p k (enters s h) v = v

Move-IsPast : {p q : Program} → Move p q → IsPast p.stage → IsPast q.stage
Move-IsPast (ask_exits node_fits base ms env net l h e r) v = inl (λ h. h)
Move-IsPast {p} (set_up_requester socket ms setsockopt bind mtu {r = r} l h n i e) v =
    after_requester-IsPast p r v
Move-IsPast (set_up_unnamed l h w) v = v
Move-IsPast {p} (set_up_adv socket m setsockopt {r} l h n e) v = after_adv-IsPast p r v
Move-IsPast {p} (set_up_sol receiving sending b c d j {r} l h n n' e) v =
    after_sol-IsPast p sending r v
Move-IsPast (create st k w) v = inr refl
Move-IsPast (crash g f) v = inl (λ h. h)
Move-IsPast (main_returns w o) v = inl (λ h. h)
Move-IsPast _ v = v

Runs-IsPast : {p q : Program} → Runs p q → IsPast p.stage → IsPast q.stage
Runs-IsPast stays v = v
Runs-IsPast (then_move r m) v = Move-IsPast m (Runs-IsPast r v)

can_return :
    (q : Program)
    → q.system.cancelled (announcer sol) ≡ true
    → IsPast q.stage
    → (IsGoing q.stage → ⊥) ⊎ ((r : Program) × Move q r × (r.stage ≡ over))
can_return q c (inl e) = inl e
can_return q c (inr e) = inr (_, main_returns e (inl c), refl)

-- Once the signal handler has run while `main` waits for the flags, in every state that the
-- process comes to it has ended, or `main` can end it in its next move.
pub signal_ends :
    (p : Program) {s : System} (st : Step p.system s) {q : Program}
    → kind st ≡ handles
    → p.stage ≡ watching
    → Runs (record p { system = s }) q
    → (IsGoing q.stage → ⊥) ⊎ ((r : Program) × Move q r × (r.stage ≡ over))
signal_ends p {s} st {q} k w run =
    can_return q
      (Reach-cancelled (announcer sol) (Runs-Reach run) (cancels_on st k (announcer sol)))
      (Runs-IsPast run (inr w))
