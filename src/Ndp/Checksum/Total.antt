-- ===== src/Ndp/Checksum/Total.antt =====
-- The checksum returns on every packet that its block holds.
use pdrad.Prelude.{
  ℕ, zero, suc, ◌+◌, ◌*◌, ◌/◌, ◌%◌, ◌≤◌, ◌<◌, ◌≡◌, inl, inr, refl, ◌∷◌, Option, none, some, ◌==◌,
  false, arith, length, Bool-cases,
}
use pdrad.Memory.{Bytes, done}
use pdrad.Memory.Access.{load16_in}
use pdrad.Ndp.Checksum.{
  fold_carry, checksum_loop, checksum_cal_core, complement16, checksum, pseudo_header, sum_or_zero,
}
use pdrad.Ndp.Checksum.Laws.{length-pseudo_header}

checksum_loop_in :
    (n i : ℕ) (b : Bytes) (sum : ℕ)
    → 2 * i + 2 * n ≤ length b
    → (s : ℕ) × (checksum_loop n i b sum ≡ done s)
unfolding checksum_loop
checksum_loop_in zero i b sum h = (sum, refl)
checksum_loop_in (suc n) i b sum h =
    let (word, p) = load16_in b (2 * i) (omega arith) in
    let (s, q) = checksum_loop_in n (i + 1) b (fold_carry (sum + word)) (omega arith) in (s, rw p q)

checksum_cal_core_in :
    (b : Bytes) (size : ℕ) → size ≤ length b → (s : Option ℕ) × (checksum_cal_core b size ≡ done s)
unfolding checksum_cal_core
checksum_cal_core_in b size h = elim (Bool-cases (size % 2 == 1)) [
  | inl odd ↦ (none, rw odd)
  | inr even ↦
      let (s, p) = checksum_loop_in (size / 2) 0 b 0 (omega arith) in (some s, rw (even, p))
]

-- On a packet of four bytes at least the checksum is computed, and the field cleared.
pub checksum_in :
    (source dest : Bytes) (a b c d size : ℕ) (body : Bytes)
    → length source ≡ 16
    → length dest ≡ 16
    → 0 < size
    → size ≤ 4 + length body
    → (r : ℕ) × (checksum source dest (some (a ∷ b ∷ c ∷ d ∷ body)) size
        ≡ done (some r, some (a ∷ b ∷ 0 ∷ 0 ∷ body)))
unfolding checksum
checksum_in source dest a b c d size body hs hd pos h =
    let cleared : Bytes = a ∷ b ∷ 0 ∷ 0 ∷ body in
    let header = pseudo_header source dest size in
    let (sh, p) =
      checksum_cal_core_in header 40 (omega (arith, length-pseudo_header source dest size hs hd)) in
    let (sb, q) = checksum_cal_core_in cleared size (omega arith) in
    let nonempty : (size == 0) ≡ false = ground arith in
    (complement16 (sum_or_zero sh + sum_or_zero sb), rw (nonempty, p, q))
