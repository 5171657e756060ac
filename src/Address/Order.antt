-- ===== src/Address/Order.antt =====
-- The byte order of addresses.
use pdrad.Prelude.{ℕ, ◌+◌, ◌*◌, ◌/◌, ◌%◌, ◌^◌, ◌<◌, ◌≡◌, refl, ap, ap₂, ◌∙◌, ◌++◌, arith}
use pdrad.Memory.{done, be32, le32, htobe32}
use pdrad.Memory.Laws.{le32-htobe32}
use pdrad.Address.{address_words, htobe64, le64, join_words, htobe_inet6}

low_part : (h l : ℕ) → l < 2 ^ 32 → (h * 2 ^ 32 + l) % 2 ^ 32 ≡ l
low_part h l k = omega arith

high_part : (h l : ℕ) → h < 2 ^ 32 → l < 2 ^ 32 → (h * 2 ^ 32 + l) / 2 ^ 32 % 2 ^ 32 ≡ h
high_part h l j k = omega arith

htobe32_bound : (v : ℕ) → htobe32 v < 2 ^ 32
htobe32_bound v = omega arith

htobe64-join_words :
    (a b : ℕ) → a < 2 ^ 32 → b < 2 ^ 32 → htobe64 (join_words a b) ≡ htobe32 b * 2 ^ 32 + htobe32 a
htobe64-join_words a b ha hb =
    let low : join_words a b % 2 ^ 32 ≡ b = omega arith in
    let high : join_words a b / 2 ^ 32 % 2 ^ 32 ≡ a = omega arith in
    ap₂ (λ x y. htobe32 x * 2 ^ 32 + htobe32 y) low high

le64-htobe64 :
    (a b : ℕ) → a < 2 ^ 32 → b < 2 ^ 32 → le64 (htobe64 (join_words a b)) ≡ be32 a ++ be32 b
le64-htobe64 a b ha hb =
    ap le64 (htobe64-join_words a b ha hb)
    ∙ ap₂ (λ x y. le32 x ++ le32 y) (low_part (htobe32 b) (htobe32 a) (htobe32_bound a))
        (high_part (htobe32 b) (htobe32 a) (htobe32_bound b) (htobe32_bound a))
    ∙ ap₂ (λ x y. x ++ y) (le32-htobe32 a) (le32-htobe32 b)

abbrev word : ℕ → ℕ
word v = v % 256 + 256 * (v / 256 % 256) + 65536 * (v / 65536 % 256 + 256 * (v / 16777216 % 256))

word_lem : (v : ℕ) → v < 2 ^ 32 → word v ≡ v
word_lem v h = omega arith

htobe_inet6_words :
    (a b c d : ℕ)
    → htobe_inet6 (address_words a b c d)
      ≡ done (
          le64 (htobe64 (join_words (word a) (word b)))
          ++ le64 (htobe64 (join_words (word c) (word d))))
unfolding htobe_inet6
htobe_inet6_words a b c d = refl

-- For any four 32-bit words that fill an address, the macro `htobe_inet6` on a 64-bit machine
-- leaves the bytes of the four words in their order, each in network order.
pub htobe_inet6_lem :
    (a b c d : ℕ)
    → a < 2 ^ 32
    → b < 2 ^ 32
    → c < 2 ^ 32
    → d < 2 ^ 32
    → htobe_inet6 (address_words a b c d) ≡ done (be32 a ++ be32 b ++ be32 c ++ be32 d)
htobe_inet6_lem a b c d ha hb hc hd =
    htobe_inet6_words a b c d
    ∙ ap₂ (λ x y. done (le64 (htobe64 x) ++ le64 (htobe64 y)))
        (ap₂ join_words (word_lem a ha) (word_lem b hb))
        (ap₂ join_words (word_lem c hc) (word_lem d hd))
    ∙ ap₂ (λ x y. done (x ++ y)) (le64-htobe64 a b ha hb) (le64-htobe64 c d hc hd)
