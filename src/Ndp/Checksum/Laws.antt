-- ===== src/Ndp/Checksum/Laws.antt =====
-- What the checksum is, against the one's complement sum of RFC 1071.
use pdrad.Prelude.{
  ℕ, zero, suc, ◌+◌, ◌*◌, ◌/◌, ◌%◌, ◌≤◌, ◌<◌, ◌≡◌, refl, [], ◌∷◌, ◌++◌, none, some, ◌==◌, false,
  arith, length, All, append_assoc, append-nil, ◌↔◌, length-append,
}
use pdrad.Memory.{Bytes, done, le32}
use pdrad.Memory.Laws.{load16-append}
use pdrad.Ndp.Checksum.{
  fold_carry, checksum_loop, checksum_cal_core, complement16, checksum, pseudo_header,
}

-- The sum of the 16-bit words of a block, lower byte first, with no carry lost.
abbrev pub word_sum : Bytes → ℕ
word_sum [] = 0
word_sum (x ∷ []) = 0
word_sum (x ∷ y ∷ b) = x + 256 * y + word_sum b

abbrev pub AllBytes : Bytes → Type 0
AllBytes b = All (λ x. x < 256) b

fold_carry_lem :
    (sum word : ℕ)
    → sum ≤ 65535
    → word ≤ 65535
    → (fold_carry (sum + word) ≤ 65535) × (fold_carry (sum + word) % 65535 ≡ (sum + word) % 65535)
unfolding fold_carry
fold_carry_lem sum word hs hw = ground arith

-- The loop over the words behind `pre`.
checksum_loop_lem :
    (n i : ℕ) (pre b rest : Bytes) (sum : ℕ)
    → length pre ≡ 2 * i
    → length b ≡ 2 * n
    → AllBytes b
    → sum ≤ 65535
    → (s : ℕ) × (checksum_loop n i (pre ++ (b ++ rest)) sum ≡ done s)
      × (s ≤ 65535)
      × (s % 65535 ≡ (sum + word_sum b) % 65535)
unfolding checksum_loop
checksum_loop_lem zero i pre [] rest sum hp hb v hs = (sum, refl, hs, omega arith)
checksum_loop_lem zero i pre (x ∷ b) rest sum hp hb v hs = absurd (omega arith)
checksum_loop_lem (suc n) i pre [] rest sum hp hb v hs = absurd (omega arith)
checksum_loop_lem (suc n) i pre (x ∷ []) rest sum hp hb v hs = absurd (omega arith)
checksum_loop_lem (suc n) i pre (x ∷ y ∷ b) rest sum hp hb (hx, (hy, v)) hs =
    let (low, same) = fold_carry_lem sum (x + 256 * y) hs (omega arith) in
    let (s, e, l, m) =
      checksum_loop_lem n (i + 1) (pre ++ x ∷ y ∷ []) b rest (fold_carry (sum + (x + 256 * y)))
        (omega (arith, length-append pre (x ∷ y ∷ []))) (omega arith) v low in
    (
      s,
      rw (load16-append pre x y (b ++ rest) (2 * i) hp)
          (rw (append_assoc pre (x ∷ y ∷ []) (b ++ rest)) at e),
      l,
      omega arith,
    )

-- The sum over a block of an even length, if the block lies in front of `rest`: it is a 16-bit
-- number, congruent to the sum of the words.
pub checksum_cal_core_lem :
    (n : ℕ) (b rest : Bytes)
    → length b ≡ 2 * n
    → AllBytes b
    → (s : ℕ) × (checksum_cal_core (b ++ rest) (2 * n) ≡ done (some s))
      × (s ≤ 65535)
      × (s % 65535 ≡ word_sum b % 65535)
unfolding checksum_cal_core
checksum_cal_core_lem n b rest hb v =
    let (s, e, l, m) = checksum_loop_lem n 0 [] b rest 0 (omega arith) hb v (omega arith) in
    let even : (2 * n % 2 == 1) ≡ false = ground arith in
    let half : 2 * n / 2 ≡ n = omega arith in (s, rw (even, half, e), l, omega arith)

pub checksum_cal_core_odd :
    (b : Bytes) (size : ℕ) → size % 2 ≡ 1 → checksum_cal_core b size ≡ done none
unfolding checksum_cal_core
checksum_cal_core_odd b size h = ground arith

AllBytes-append : (a b : Bytes) → AllBytes a → AllBytes b → AllBytes (a ++ b)
AllBytes-append [] b v w = w
AllBytes-append (x ∷ a) b (h, v) w = (h, AllBytes-append a b v w)

pub length-pseudo_header :
    (source dest : Bytes) (size : ℕ)
    → length source ≡ 16
    → length dest ≡ 16
    → length (pseudo_header source dest size) ≡ 40
length-pseudo_header source dest size hs hd = omega (
  arith,
  length-append ((source ++ dest) ++ le32 size) (0 ∷ 0 ∷ 0 ∷ 58 ∷ []),
  length-append (source ++ dest) (le32 size),
  length-append source dest,
)

AllBytes-pseudo_header :
    (source dest : Bytes) (size : ℕ)
    → AllBytes source
    → AllBytes dest
    → AllBytes (pseudo_header source dest size)
AllBytes-pseudo_header source dest size hs hd =
    AllBytes-append ((source ++ dest) ++ le32 size) _
      (AllBytes-append (source ++ dest) (le32 size) (AllBytes-append source dest hs hd)
        (omega arith))
      (omega arith)

-- Whether a checksum verifies: with it, the words of the pseudo header and of the packet sum up to a
-- multiple of 65535.
abbrev pub Verifies : ℕ → ℕ → Type 0
Verifies total r = (total + r) % 65535 ≡ 0

-- For 16-byte addresses and a packet of an even, positive number of bytes, both partial sums of
-- `ndp_checksum` are computed, the field is cleared, and the result is a 16-bit number. With it
-- the words of the pseudo header as the code fills it and of the packet add up to a multiple of
-- 65535 exactly when the two partial sums add up to 65535 at most: the carry of the last addition
-- is not folded in.
pub checksum_lem :
    (source dest : Bytes) (a b c d n : ℕ) (body : Bytes)
    → length source ≡ 16
    → length dest ≡ 16
    → AllBytes source
    → AllBytes dest
    → AllBytes (a ∷ b ∷ 0 ∷ 0 ∷ body)
    → length body + 4 ≡ 2 * n
    → let header = pseudo_header source dest (2 * n) in
      let cleared = a ∷ b ∷ 0 ∷ 0 ∷ body in
      let total = word_sum header + word_sum cleared in
      (sum_header sum_body r : ℕ) × (checksum_cal_core header 40 ≡ done (some sum_header))
      × (checksum_cal_core cleared (2 * n) ≡ done (some sum_body))
      × (checksum source dest (some (a ∷ b ∷ c ∷ d ∷ body)) (2 * n) ≡ done (some r, some cleared))
      × (r ≤ 65535)
      × (Verifies total r ↔ (sum_header + sum_body ≤ 65535))
unfolding checksum
checksum_lem source dest a b c d n body hs hd vs vd vb hl =
    let header = pseudo_header source dest (2 * n) in
    let cleared : Bytes = a ∷ b ∷ 0 ∷ 0 ∷ body in
    let (sh, eh, lh, mh) =
      checksum_cal_core_lem 20 header [] (length-pseudo_header source dest (2 * n) hs hd)
        (AllBytes-pseudo_header source dest (2 * n) vs vd) in
    let (sb, eb, lb, mb) = checksum_cal_core_lem n cleared [] (omega arith) vb in
    let nonempty : (2 * n == 0) ≡ false = ground arith in
    let eh' = rw (append-nil header) at eh in
    let eb' = rw (append-nil cleared) at eb in
    (
      sh,
      sb,
      complement16 (sh + sb),
      eh',
      eb',
      rw (nonempty, eh', eb'),
      omega arith,
      ((λ h. omega arith), (λ h. omega arith)),
    )
