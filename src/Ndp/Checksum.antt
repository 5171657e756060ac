-- ===== src/Ndp/Checksum.antt =====
-- `ndp_checksumCalCore` and `ndp_checksum` of Src/ndp_packets.c. `none` is the result -1.
pub mod Laws
pub mod Total
use pdrad.Prelude.{
  ℕ, zero, suc, ◌+◌, ◌-◌, ◌*◌, ◌/◌, ◌%◌, ◌^◌, List, [], ◌∷◌, ◌++◌, Option, none, some,
  if◌then◌else◌, ◌==◌,
}
use pdrad.Memory.{Bytes, Ptr, Run, done, fault, ◌>>=◌, load16, store16, read, le32}

-- `sum & 0xFFFF0000` asks for a bit above the lower sixteen; `sum` is an `int` of 32 bits.
unfoldable pub fold_carry : ℕ → ℕ
fold_carry sum = if sum / 65536 % 65536 == 0 then sum else sum % 65536 + sum / 65536

-- The loop from index `i` on, with the rounds that are left.
unfoldable pub checksum_loop : ℕ → ℕ → Bytes → ℕ → Run ℕ
checksum_loop zero i bytes sum = done sum
checksum_loop (suc n) i bytes sum =
    load16 bytes (2 * i) >>= λ word. checksum_loop n (i + 1) bytes (fold_carry (sum + word))

unfoldable pub checksum_cal_core : Bytes → ℕ → Run (Option ℕ)
unfolding checksum_loop fold_carry
checksum_cal_core bytes size =
    if size % 2 == 1
    then done none
    else checksum_loop (size / 2) 0 bytes 0 >>= λ sum. done (some sum)

-- `struct ndp_pseudoHeader` as it is filled, 40 bytes; the length is stored as it is in memory.
abbrev pub pseudo_header : Bytes → Bytes → ℕ → Bytes
pseudo_header source_addr dest_addr size =
    source_addr ++ dest_addr ++ le32 size ++ 0 ∷ 0 ∷ 0 ∷ 58 ∷ []

-- A sum that was not computed stays 0.
abbrev pub sum_or_zero : Option ℕ → ℕ
sum_or_zero none = 0
sum_or_zero (some sum) = sum

-- `~(sumHeader + sumBody) & 0xFFFF`
abbrev pub complement16 : ℕ → ℕ
complement16 sum = 65535 - sum % 65536

-- The result, and the packet with its checksum field cleared.
unfoldable pub checksum : Bytes → Bytes → Ptr → ℕ → Run (Option ℕ × Ptr)
unfolding checksum_cal_core
checksum source_addr dest_addr none size = done (none, none)
checksum source_addr dest_addr (some packet) size =
    if size == 0 then done (none, some packet) else (do
      packet ← store16 packet 2 0
      sum_header ← checksum_cal_core (pseudo_header source_addr dest_addr size) 40
      sum_body ← checksum_cal_core packet size
      done (some (complement16 (sum_or_zero sum_header + sum_or_zero sum_body)), some packet))
