-- ===== src/Daemon/Program/Tests.antt =====
-- The theorems on the process at runs of it.
use pdrad.Prelude.{ℕ, length, ◌≡◌, ◌⊎◌, refl, [], ◌∷◌, none, some, true, false, All, arith}
use pdrad.Memory.{Bytes, Malloc, fault, Fault}
use pdrad.Memory.Samples.{zeros}
use pdrad.Interface.{ok, dispose}
use pdrad.Daemon.Start.{zeros_of}
use pdrad.Daemon.Setup.{setup_requester}
use pdrad.Daemon.Threads.{requester, signal, Step}
use pdrad.Daemon.Threads.Ready.{zeroed_all}
use pdrad.Daemon.Threads.Invariant.{Published}
use pdrad.Daemon.Threads.Adverts.{IsAdvert}
use pdrad.Daemon.Program.{
  IsGoing, Faulting, in_requester_set_up, shared, Program, waiting, over, returned, Move,
  set_up_requester, handle, kind, handles, Runs, stays, then_move, launched, set_up,
}
use pdrad.Daemon.Program.Prepared.{bound_to}
use pdrad.Daemon.Program.Stuck.{main_stuck}
use pdrad.Daemon.Program.Faults.{IsBenign, program_no_fault}
use pdrad.Daemon.Program.Ending.{signal_ends}
use pdrad.Daemon.Program.Adverts.{program-IsAdvert}
use pdrad.Daemon.Program.Prepared.{dhcp_prepared, IsReused}
use pdrad.Daemon.Program.Sending.{Sends, from_idle}
use pdrad.Daemon.Program.Asked.{unanswered, AllAsked, Runs-trans}

abbrev name : Bytes
name = b'w' ∷ []

abbrev first : Program
first = launched true (zeros_of 25) (bound_to 3 (zeros 40)) name (some name)

-- There is no socket for the thread that requests.
failed : Runs first (
    set_up first requester
      (record {
        opened = [];
        adv_cancelled = false;
        sol_cancelled = false;
        requester_cancelled = true;
      })
      returned)
unfolding setup_requester
failed =
    then_move stays (set_up_requester none zeroed_all (ok tt) (ok tt) (ok 0) tt refl refl tt refl)

abbrev after_failure : Program
after_failure =
    set_up first requester
      (record {
        opened = [];
        adv_cancelled = false;
        sol_cancelled = false;
        requester_cancelled = true;
      })
      returned

-- Then a signal.
interrupted : Runs after_failure (record after_failure {
  system = record after_failure.system {
    cancelled = λ t. true;
    interface = (dispose after_failure.system.interface).1;
  };
})
unfolding kind
interrupted = then_move stays (handle signal refl tt)

abbrev after_signal : Program
after_signal = record after_failure {
  system = record after_failure.system {
    cancelled = λ t. true;
    interface = (dispose after_failure.system.interface).1;
  };
}

main_stuck_example : (after_signal.stage ≡ waiting) × (after_signal.system.messages ≡ [])
main_stuck_example =
    main_stuck (zeros_of 25) (bound_to 3 (zeros 40)) name (some name) failed refl refl refl
      interrupted

-- The threads are in their loops.
running : (p : Program) × (r : Runs first p) × AllAsked unanswered r × IsReused 3 p
running = dhcp_prepared 3 (zeros 40) name name refl (omega arith) (omega arith)

sends : Sends unanswered running.0
sends = let v = running.3 in from_idle running.0 v.announcing v.free v.at_head

program-IsAdvert_example :
    All (IsAdvert sends.last.system.heard (Published (zeros_of 25))) sends.last.system.messages
program-IsAdvert_example =
    program-IsAdvert true (zeros_of 25) (bound_to 3 (zeros 40)) name (some name) refl refl
      (Runs-trans running.1 sends.run)

abbrev static_first : Program
static_first = launched false (zeros_of 25) (bound_to 3 (zeros 40)) name none

abbrev static_signal : Program
static_signal = record static_first {
  system = record static_first.system {
    cancelled = λ t. true;
    interface = (dispose static_first.system.interface).1;
  };
}

abbrev the_signal : Step static_first.system static_signal.system
the_signal = signal

kind-signal : kind the_signal ≡ handles
unfolding kind
kind-signal = refl

signal_ends_example :
    (IsGoing static_signal.stage → ⊥) ⊎ ((r : Program) × Move static_signal r × (r.stage ≡ over))
signal_ends_example = signal_ends static_first the_signal kind-signal refl stays

-- Without memory.
no_block : (n : ℕ) {b : Bytes} → none ≡ some b → length b ≡ n
no_block n e = cc

abbrev no_memory : Malloc
no_memory = record { alloc = λ n. none; length-alloc = λ n e. no_block n e }

nothing_named :
    setup_requester (shared first) name (some 7) (λ n. no_memory) (ok tt) (ok tt) (ok 0)
    ≡ fault Fault.null_pointer
unfolding setup_requester
nothing_named = refl

abbrev the_fault : Faulting first Fault.null_pointer
the_fault =
    in_requester_set_up (some 7) (λ n. no_memory) (ok tt) (ok tt) (ok 0) refl refl (omega arith, tt)
      nothing_named

program_no_fault_example : ¬ (IsBenign the_fault)
program_no_fault_example =
    program_no_fault true (zeros_of 25) (bound_to 3 (zeros 40)) name (some name) refl refl
      (omega arith) (omega arith) stays the_fault
