-- ===== src/Ndp/Packets.antt =====
-- `ndp_createRAPacket` of Src/ndp_packets.c. `struct nd_router_advert` of the C library is the fixed
-- part of RFC 4861, section 4.2, 16 bytes long; its type is 134.
pub mod Wire
use pdrad.Prelude.{
  ℕ, zero, suc, ◌+◌, ◌-◌, ◌*◌, ◌/◌, ◌%◌, ◌^◌, List, [], ◌∷◌, ◌++◌, Option, none, some, bit_and,
  bit_or,
}
use pdrad.Memory.{
  Bytes, Ptr, Run, done, fault, Fault, ◌>>=◌, Malloc, deref, add64, read, write, load8, store8,
  store16, store32, htobe16, htobe32,
}
use pdrad.Ndp.Checksum.{checksum}

-- `enum ndp_ra_flag`
abbrev pub ra_flag_m : ℕ
ra_flag_m = 0b1000_0000

abbrev pub ra_flag_o : ℕ
ra_flag_o = 0b0100_0000

abbrev pub ra_flag_h : ℕ
ra_flag_h = 0b0010_0000

abbrev pub ra_flag_prf_medium : ℕ
ra_flag_prf_medium = 0b0000_0000

abbrev pub ra_flag_prf_high : ℕ
ra_flag_prf_high = 0b0000_1000

abbrev pub ra_flag_prf_low : ℕ
ra_flag_prf_low = 0b0001_1000

abbrev pub ra_flag_invalid : ℕ
ra_flag_invalid = 0b0001_0000

abbrev pub ra_flag_p : ℕ
ra_flag_p = 0b0000_0100

abbrev pub ra_flag_r : ℕ
ra_flag_r = 0b1111_1100

abbrev pub sizeof_router_advert : ℕ
sizeof_router_advert = 16

-- The first loop: the options, one `va_arg` each, and the length with theirs. Reading past the
-- arguments is a fault.
unfoldable pub take_options : ℕ → List Ptr → ℕ → Run (List Bytes × ℕ)
take_options zero args total = done ([], total)
take_options (suc n) [] total = fault Fault.out_of_bounds
take_options (suc n) (p ∷ args) total = do
  opt ← deref p
  units ← load8 opt 1
  (options, total') ← take_options n args (add64 total (units * 8))
  done (opt ∷ options, total')

-- The second loop: each option is copied behind the last.
unfoldable pub copy_options : List Bytes → Bytes → ℕ → Run Bytes
copy_options [] pkt at = done pkt
copy_options (opt ∷ options) pkt at = do
  units ← load8 opt 1
  bytes ← read opt 0 (units * 8)
  pkt ← write pkt at bytes
  copy_options options pkt (at + units * 8)

module _ (m : Malloc) where
  -- The length, and what `*pktBufPtr` is set to. The result of the checksum is compared with 0, to no
  -- effect, and dropped.
  unfoldable pub create_ra_packet : Bytes → Bytes → ℕ → ℕ → ℕ → ℕ → ℕ → List Ptr → Run (ℕ × Ptr)
  unfolding take_options copy_options
  create_ra_packet source_addr dest_addr cur_hop_limit router_life_time reachable_time
        re_trans_timer options_num args =
      do
        (options, total) ← take_options options_num args sizeof_router_advert
        pkt ← deref (m.alloc total)
        pkt ← store8 pkt 0 134
        pkt ← store8 pkt 1 0
        pkt ← store8 pkt 4 cur_hop_limit
        pkt ← store8 pkt 5 (bit_or ra_flag_o (bit_and ra_flag_prf_high ra_flag_r))
        pkt ← store16 pkt 6 (htobe16 router_life_time)
        pkt ← store32 pkt 8 (htobe32 reachable_time)
        pkt ← store32 pkt 12 (htobe32 re_trans_timer)
        pkt ← copy_options options pkt sizeof_router_advert
        (result, pkt') ← checksum source_addr dest_addr (some pkt) total
        done (total, pkt')
