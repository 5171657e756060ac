-- ===== src/Daemon/Program/Stuck.antt =====
-- `main` waits for a prefix for good once the thread that would bring it has returned.
use pdrad.Prelude.{ℕ, ◌≡◌, refl, sym, ◌∙◌, List, [], Option, true}
use pdrad.Memory.{Bytes, Ptr, done, Fault, load8}
use pdrad.Interface.{Interface}
use pdrad.Daemon.Setup.{Setup, exits, returns_with, enters}
use pdrad.Memory.Access.{done-injective}
use pdrad.Daemon.Threads.{adv, sol, Announcer, Thread, requester, announcer}
use pdrad.Daemon.Program.Kinds.{creates_on, handles_on, in_loop_on, leaves_loop_on}
use pdrad.Daemon.Program.{
  in_request, in_query, in_listen, in_send, in_requester_set_up, in_unnamed_set_up, in_adv_set_up,
  in_sol_set_up, Faulting, waiting, absent, created, returned, looping, Program, Move, loop_step,
  ask, ask_exits, loop_end, set_up_requester, set_up_unnamed, set_up_adv, set_up_sol, create,
  main_returns, crash, handle, Runs, stays, then_move, launched, after_requester, after_adv,
  after_sol,
}

pub record IsStuck (p : Program) : Type 0 where
  pub waits : p.stage ≡ waiting
  pub gone : p.place requester ≡ returned
  pub alone : (a : Announcer) → p.place (announcer a) ≡ absent
  pub unset : load8 p.system.prefix 8 ≡ done 0

not_looping : {p : Program} (v : IsStuck p) (t : Thread) {hs : List ℕ} → p.place t ≡ looping hs → ⊥
not_looping v requester e = let g = v.gone in cc
not_looping v (announcer a) e = let g = v.alone a in cc

not_created : {p : Program} (v : IsStuck p) (t : Thread) → p.place t ≡ created → ⊥
not_created v requester e = let g = v.gone in cc
not_created v (announcer a) e = let g = v.alone a in cc

no_fault : {p : Program} {e : Fault} → IsStuck p → Faulting p e → ⊥
no_fault v (in_request node_fits base ms env net h o a r) = not_looping v requester h
no_fault v (in_query a ioctl h s r) = not_looping v (announcer a) h
no_fault v (in_listen buffer packets size h s r) = not_looping v (announcer sol) h
no_fault v (in_send a ms h s hl hv hp r) = not_looping v (announcer a) h
no_fault v (in_requester_set_up socket ms setsockopt bind mtu h w n r) = not_created v requester h
no_fault v (in_unnamed_set_up k h w n) = not_created v requester h
no_fault v (in_adv_set_up socket m setsockopt h n r) = not_created v (announcer adv) h
no_fault v (in_sol_set_up receiving sending b c d j h n n' r) = not_created v (announcer sol) h

-- What a stuck process comes to.
abbrev Still : Program → Program → Type 0
Still p q = IsStuck q × (q.system.messages ≡ p.system.messages)

Move-IsStuck : {p q : Program} → IsStuck p → Move p q → Still p q
Move-IsStuck v (loop_step t st k l h) = absurd (not_looping v t h)
Move-IsStuck v (ask node_fits base ms env net l h o e r) = absurd (not_looping v requester h)
Move-IsStuck v (ask_exits node_fits base ms env net l h e r) = absurd (not_looping v requester h)
Move-IsStuck v (loop_end t st k l h) = absurd (not_looping v t h)
Move-IsStuck v (set_up_requester socket ms setsockopt bind mtu l h w n e) =
    absurd (not_created v requester h)
Move-IsStuck v (set_up_unnamed l h w) = absurd (not_created v requester h)
Move-IsStuck v (set_up_adv socket m setsockopt l h n e) = absurd (not_created v (announcer _) h)
Move-IsStuck v (set_up_sol receiving sending b c d j l h n n' e) =
    absurd (not_created v (announcer _) h)
Move-IsStuck v (create st k w) =
    let (l, h, n) = creates_on st k in absurd (n (done-injective (sym h ∙ v.unset)))
Move-IsStuck v (main_returns w o) = let g = v.waits in cc
Move-IsStuck v (crash g f) = absurd (no_fault v f)
Move-IsStuck v (handle st k l) =
    let (same, messages) = handles_on st k in
    (record { waits = v.waits; gone = v.gone; alone = v.alone; unset = rw same v.unset }, messages)

pub Runs-IsStuck :
    {p q : Program} → IsStuck p → Runs p q → IsStuck q × (q.system.messages ≡ p.system.messages)
Runs-IsStuck v stays = (v, refl)
Runs-IsStuck v (then_move r m) =
    let (w, e) = Runs-IsStuck v r in let (w', e') = Move-IsStuck w m in (w', e' ∙ e)

-- As long as `main` waits, nothing announces.
abbrev Quiet : Program → Type 0
Quiet p = ((a : Announcer) → p.place (announcer a) ≡ absent) × (p.system.messages ≡ [])

after_requester-Quiet :
    (p : Program) (r : Setup (ℕ × Bytes))
    → (p.stage ≡ waiting → Quiet p)
    → (after_requester p r).stage ≡ waiting
    → Quiet (after_requester p r)
after_requester-Quiet p exits v w = cc
after_requester-Quiet p (returns_with s) v w = v w
after_requester-Quiet p (enters s (h, b)) v w = v w

after_adv-stage : (p : Program) (r : Setup ℕ) → (after_adv p r).stage ≡ waiting → p.stage ≡ waiting
after_adv-stage p exits w = cc
after_adv-stage p (returns_with s) w = w
after_adv-stage p (enters s h) w = w

after_sol-stage :
    (p : Program) (k : Option ℕ) (r : Setup ℕ)
    → (after_sol p k r).stage ≡ waiting
    → p.stage ≡ waiting
after_sol-stage p k exits w = cc
after_sol-stage p k (returns_with s) w = w
after_sol-stage p k (enters s h) w = w

Move-Quiet :
    {p q : Program} → (p.stage ≡ waiting → Quiet p) → Move p q → q.stage ≡ waiting → Quiet q
Move-Quiet v (loop_step requester st k l h) w = ((v w).0, in_loop_on st k ∙ (v w).1)
Move-Quiet v (loop_step (announcer a) st k l h) w = let g = (v w).0 a in cc
Move-Quiet v (ask node_fits base ms env net l h o e r) w = v w
Move-Quiet v (ask_exits node_fits base ms env net l h e r) w = cc
Move-Quiet v (loop_end requester st k l h) w = ((v w).0, leaves_loop_on st k ∙ (v w).1)
Move-Quiet v (loop_end (announcer a) st k l h) w = let g = (v w).0 a in cc
Move-Quiet {p} v (set_up_requester socket ms setsockopt bind mtu {r = r} l h n i e) w =
    after_requester-Quiet p r v w
Move-Quiet v (set_up_unnamed l h i) w = v w
Move-Quiet {p} v (set_up_adv socket m setsockopt {r} l h n e) w =
    let g = (v (after_adv-stage p r w)).0 adv in cc
Move-Quiet {p} v (set_up_sol receiving sending b c d j {r} l h n n' e) w =
    let g = (v (after_sol-stage p sending r w)).0 sol in cc
Move-Quiet v (create st k u) w = cc
Move-Quiet v (main_returns u o) w = cc
Move-Quiet v (crash g f) w = cc
Move-Quiet v (handle st k l) w = ((v w).0, (handles_on st k).1 ∙ (v w).1)

Runs-Quiet :
    {p q : Program} → (p.stage ≡ waiting → Quiet p) → Runs p q → q.stage ≡ waiting → Quiet q
Runs-Quiet v stays = v
Runs-Quiet v (then_move r m) = Move-Quiet (Runs-Quiet v r) m

-- With DHCP, if `Thread_requestDhcpPrefix` has returned, be it since a socket, `setsockopt` or
-- `bind` failed or since a signal came, while `main` waits for a prefix and its length is 0, then
-- whatever happens `main` waits for ever and no message is sent; no signal ends the process.
pub main_stuck :
    (initial : Bytes) (interface : Interface) (lan : Bytes) (wan : Ptr) {p q : Program}
    → Runs (launched true initial interface lan wan) p
    → p.stage ≡ waiting
    → p.place requester ≡ returned
    → load8 p.system.prefix 8 ≡ done 0
    → Runs p q
    → (q.stage ≡ waiting) × (q.system.messages ≡ [])
main_stuck initial interface lan wan r w g n r' =
    let (alone, none_sent) = Runs-Quiet (λ e. ((λ a. refl), refl)) r w in
    let (v, same) = Runs-IsStuck (record { waits = w; gone = g; alone = alone; unset = n }) r' in
    (v.waits, same ∙ none_sent)
