-- ===== src/Daemon/Setup/Tests.antt =====
-- The theorems on the set-up of the threads at concrete inputs.
use pdrad.Prelude.{ℕ, ◌≡◌, refl, [], ◌∷◌, false, some, arith}
use pdrad.Memory.{Bytes, done, Malloc}
use pdrad.Memory.Samples.{zeroed}
use pdrad.Interface.{ok, err}
use pdrad.Daemon.Setup.{Shared, Setup, setup_adv, setup_requester, setup_sol}
use pdrad.Daemon.Setup.Descriptors.{AdvEnds, RequesterEnds, Fresh, setup_closes, setup_sol-SolEnds}

abbrev wan : Bytes
wan = b'w' ∷ b'a' ∷ b'n' ∷ []

-- The descriptors 3 and 4 are open, no thread is cancelled.
abbrev shared : Shared
shared = record {
  opened = 4 ∷ 3 ∷ [];
  adv_cancelled = false;
  sol_cancelled = false;
  requester_cancelled = false;
}

abbrev zeroed_all : ℕ → Malloc
zeroed_all n = zeroed

fresh : Fresh 5 shared.opened
fresh = (omega arith, (omega arith, tt))

fresh' : Fresh 6 (5 ∷ shared.opened)
fresh' = (omega arith, (omega arith, (omega arith, tt)))

-- The interface cannot be bound.
setup_closes_example :
    ((r : Setup ℕ) × (setup_adv shared wan (some 5) zeroed (err 19) ≡ done r) × AdvEnds shared r)
    × ((r : Setup (ℕ × Bytes)) × (setup_requester shared wan
            (some 5)
            zeroed_all
            (err 19)
            (ok tt)
            (ok 4)
          ≡ done r)
        × RequesterEnds shared 4 r)
setup_closes_example =
    setup_closes shared wan (omega arith) 5 zeroed_all (err 19) (ok tt) (ok 4) refl refl fresh

-- The second socket cannot be bound to the interface, and stays closed.
setup_sol-SolEnds_example :
    setup_sol shared wan (some 5) (some 6) (ok tt) (err 19) (ok tt) (ok tt)
    ≡ done (Setup.returns_with (record shared { opened = 5 ∷ 4 ∷ 3 ∷ [] }))
setup_sol-SolEnds_example =
    setup_sol-SolEnds shared wan (omega arith) 5 6 (ok tt) (err 19) (ok tt) (ok tt) fresh fresh'
