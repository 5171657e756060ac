-- ===== src/Memory/Samples.antt =====
-- A `malloc` that answers every call with a block of zeros, for the tests.
use pdrad.Prelude.{ℕ, zero, suc, ◌≡◌, refl, sym, ap, ◌∙◌, [], ◌∷◌, some, length}
use pdrad.Memory.{Bytes, Malloc}

abbrev pub zeros : ℕ → Bytes
zeros zero = []
zeros (suc n) = 0 ∷ zeros n

length-zeros : (n : ℕ) → length (zeros n) ≡ n
length-zeros zero = refl
length-zeros (suc n) = ap suc (length-zeros n)

pub length-zeroed : (n : ℕ) {b : Bytes} → some (zeros n) ≡ some b → length b ≡ n
length-zeroed n {b} e = let p : zeros n ≡ b = cc in ap length (sym p) ∙ length-zeros n

abbrev pub zeroed : Malloc
zeroed = record { alloc = λ n. some (zeros n); length-alloc = length-zeroed }
