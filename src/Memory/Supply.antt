-- ===== src/Memory/Supply.antt =====
-- Allocations that succeed.
use pdrad.Prelude.{ℕ, ◌≡◌, some}
use pdrad.Memory.{Bytes, Malloc}

abbrev pub Supplies : Malloc → Type 0
Supplies m = (n : ℕ) → (b : Bytes) × (m.alloc n ≡ some b)

abbrev pub Plentiful : (ℕ → Malloc) → Type 0
Plentiful ms = (i : ℕ) → Supplies (ms i)
