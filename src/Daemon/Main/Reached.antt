-- ===== src/Daemon/Main/Reached.antt =====
-- What becomes of the program after `main` has started.
use pdrad.Prelude.{
  ℕ, ◌≤◌, ◌≡◌, refl, subst, List, Option, none, some, Bool, true, false, if◌then◌else◌,
}
use pdrad.Memory.{Bytes, Ptr, Run, done, fault, ◌>>=◌, Malloc, deref}
use pdrad.Memory.Ensures.{Ensures, returns, faults, Ensures-eq, Ensures->>=, Ensures->>=_of}
use pdrad.Interface.{Answer, Interface, not_started, init, init_call, CallPath, no_calls, then_call}
use pdrad.Interface.Calls.{IsSane, calls-IsSane}
use pdrad.Daemon.Start.{Texts, Started, argument, zeros_of, main_arguments}
use pdrad.Daemon.Threads.Holders.{holders, threads_exclusive}
use pdrad.Daemon.Threads.Source.{Reach-IsSane}
use pdrad.Daemon.Program.{Program, Runs, launched}
use pdrad.Daemon.Program.Simulation.{Runs-Reach}
use pdrad.Daemon.Main.{main_program, initialised}

-- The state is one that the threads start in, with an interface that `utils_Init` has left.
record IsStart (s : Program) : Type 0 where
  use_dhcp : Bool
  prefix : Bytes
  interface : Interface
  lan : Bytes
  wan : Ptr
  same : s ≡ launched use_dhcp prefix interface lan wan
  called : CallPath not_started interface

abbrev OptionIsStart : Option Program → Type 0
OptionIsStart none = Unit
OptionIsStart (some s) = IsStart s

Ensures-self : {A : Type 0} (m : Run A) → Ensures (λ a. m ≡ done a) m
Ensures-self (done a) = returns refl
Ensures-self (fault e) = faults

registered :
    (sigint sigterm : Bool) {s : Program}
    → IsStart s
    → OptionIsStart (if sigint then (if sigterm then some s else none) else none)
registered true true v = v
registered true false v = tt
registered false sigterm v = tt

initialised-IsStart :
    (argv : List Bytes) (socket : Option ℕ) (m : Malloc) (setsockopt : Answer (Unit {0}))
    (sigint sigterm : Bool) (o : Started)
    → Ensures OptionIsStart (initialised argv socket m setsockopt sigint sigterm o)
initialised-IsStart argv socket m setsockopt sigint sigterm none = returns tt
initialised-IsStart argv socket m setsockopt sigint sigterm (some (use_dhcp, wan, prefix)) =
    Ensures->>= (argument argv 2 >>= deref) λ lan.
      Ensures->>=_of (Ensures-self (init not_started lan socket m setsockopt)) λ started q.
        returns (
          registered sigint sigterm {s = launched use_dhcp prefix started.1 lan wan} (record {
            use_dhcp = use_dhcp;
            prefix = prefix;
            interface = started.1;
            lan = lan;
            wan = wan;
            same = refl;
            called = then_call no_calls (init_call lan socket m setsockopt q);
          }))

-- Whatever the command line, the kernel and the network answer, if `main` comes to start its
-- threads then in every state that the process reaches Src/utils.c has one descriptor open at
-- most, which is `utils_handler`, and one thread at most stands where it holds the mutex.
pub main_program-IsSane :
    (c : Texts) (argv : List Bytes) (socket : Option ℕ) (m : Malloc)
    (setsockopt : Answer (Unit {0})) (sigint sigterm : Bool) {p q : Program}
    → main_program c argv socket m setsockopt sigint sigterm ≡ done (some p)
    → Runs p q
    → IsSane q.system.interface × (holders q.system ≤ 1)
unfolding main_program
main_program-IsSane c argv socket m setsockopt sigint sigterm {p} {q} e r =
    let v =
      Ensures-eq
        (Ensures->>= (main_arguments c argv (zeros_of 25))
          (initialised-IsStart argv socket m setsockopt sigint sigterm))
        e in
    let r' = Runs-Reach (subst (λ x. Runs x q) v.same r) in
    (
      Reach-IsSane (calls-IsSane v.called) r',
      (threads_exclusive v.use_dhcp v.prefix v.interface r').0,
    )
