-- ===== src/Daemon/Program/Asked.antt =====
-- The requests of a run of the process.
use pdrad.Prelude.{ℕ, ◌≡◌, Bool, false}
use pdrad.Memory.{Bytes, Malloc}
use pdrad.Dhcp.Packets.{Environment}
use pdrad.Daemon.Request.{Network}
use pdrad.Daemon.Program.{Program, Move, ask, Runs, stays, then_move}

-- A condition on a request: the allocations, the clock, what the network does, and the buffer.
abbrev pub Condition : Type 1
Condition = (ℕ → Bool) → ℕ → (ℕ → Malloc) → Environment → Network → Bytes → Type 0

-- Nothing is sent, so that no server can answer.
abbrev pub unanswered : Condition
unanswered node_fits base ms env net buffer = net.sendto ≡ false

module _ (C : Condition) where
  abbrev pub IsAsked : {p q : Program} → Move p q → Type 0
  IsAsked {p} (ask node_fits base ms env net a b c d e) = C node_fits base ms env net p.buffer
  IsAsked _ = Unit

  -- Every request of the run meets the condition.
  abbrev pub AllAsked : {p q : Program} → Runs p q → Type 0
  AllAsked stays = Unit
  AllAsked (then_move r m) = AllAsked r × IsAsked m

unfoldable pub Runs-trans : {p q r : Program} → Runs p q → Runs q r → Runs p r
Runs-trans x stays = x
Runs-trans x (then_move y m) = then_move (Runs-trans x y) m

pub AllAsked-trans :
    (C : Condition) {p q r : Program} (x : Runs p q) (y : Runs q r)
    → AllAsked C x
    → AllAsked C y
    → AllAsked C (Runs-trans x y)
unfolding Runs-trans
AllAsked-trans C x stays h k = h
AllAsked-trans C x (then_move y m) h (k, a) = (AllAsked-trans C x y h k, a)
