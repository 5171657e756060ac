-- ===== src/Dhcp/Parse/Prefix.antt =====
-- `dh_parseOptions` over the whole options in front of what is not a whole option.
use native.Mathlib.Decide.{dec_lt}
use pdrad.Prelude.{
  ℕ, zero, suc, ◌+◌, ◌-◌, ◌^◌, ◌≤◌, ◌<◌, ◌≡◌, refl, List, [], ◌∷◌, ◌++◌, append_assoc, append-nil,
  Bool, true, false, ◌==◌, arith, length, length-append, All,
}
use pdrad.Memory.{Bytes, done, fault, Fault, ◌>>=◌, sub64, le16, htobe16}
use pdrad.Memory.Access.{load16_in, load16_out, write_in}
use pdrad.Dhcp.Packets.{MsgType, msg_code, TransactionId, id_bytes, swap_header}
use pdrad.Dhcp.Packets.Wire.{
  DhOption, IsOption, host_option, wire_option, wire_options, wire_length,
}
use pdrad.Dhcp.Parse.{
  ParsedOptions, record_option, parse_loop, parse_content, parse_options, nothing_parsed,
  wrong_type,
}
use pdrad.Dhcp.Parse.Reads.{host_options, scan, parse_round-wire, advance-next}
use pdrad.Dhcp.Parse.RoundTrip.{host_packet}

pub swap_header_out :
    (b : Bytes) (o : ℕ) → length b < o + 4 → swap_header b o ≡ fault Fault.out_of_bounds
unfolding swap_header
swap_header_out b o h = elim (dec_lt (o + 1) (length b)) [
  | yes inside ↦
      let (code, p) = load16_in b o inside in
      let (c, q, l) = write_in b o (le16 (htobe16 code)) (omega arith) in
      rw (p, q, load16_out c (o + 2) (omega arith))
  | no past ↦ rw (load16_out b o (omega arith))
]

-- Every option takes four bytes at least.
pub length-wire_options : (os : List DhOption) → length os ≤ length (wire_options os)
length-wire_options [] = omega arith
length-wire_options (o ∷ os) =
    omega (arith, length-append (wire_option o) (wire_options os), length-wire_options os)

module _ (node_fits : ℕ → Bool) (base size : ℕ) (room : base + size + 2 ^ 17 ≤ 2 ^ 64) where
  -- The rounds over whole options that are not the last.
  parse_loop-prefix :
      (os : List DhOption) (fuel k : ℕ) (pre tail : Bytes) (reader unread left : ℕ)
      (result : ParsedOptions)
      → All IsOption os
      → length pre ≡ reader
      → unread ≡ length (wire_options os) + left
      → reader + unread ≡ size
      → 0 < left
      → fuel ≡ length os + k
      → parse_loop node_fits base size fuel (pre ++ (wire_options os ++ tail)) reader unread result
        ≡ parse_loop node_fits base size k
            ((pre ++ host_options os) ++ tail)
            (reader + length (wire_options os))
            left
            (scan node_fits reader os result)
  unfolding parse_loop scan
  parse_loop-prefix [] fuel k pre tail reader unread left result v hp hu hs hl hf =
      let same_fuel : fuel ≡ k = omega arith in
      let same_left : unread ≡ left = omega arith in
      let same_reader : reader + 0 ≡ reader = omega arith in
      rw (same_fuel, same_left, same_reader, append-nil pre)
  parse_loop-prefix (o ∷ os) zero k pre tail reader unread left result (v, vs) hp hu hs hl hf =
      absurd (omega arith)
  parse_loop-prefix (o ∷ os) (suc fuel) k pre tail reader unread left result (v, vs) hp hu hs hl
        hf =
      let n = length o.bytes + 4 in
      let rest = length (wire_options os) + left in
      let result' = record_option node_fits o.code reader result in
      let grow = length-append (wire_option o) (wire_options os) in
      let sum : unread ≡ n + rest = omega (arith, hu, grow) in
      let end : reader + n + length (wire_options os) ≡ reader + length (wire_options (o ∷ os)) =
        omega (arith, grow) in
      let ih =
        parse_loop-prefix os fuel k (pre ++ host_option o) tail (reader + n) rest left result' vs
          (omega (arith, length-append pre (host_option o))) refl (omega arith) hl (omega arith) in
      rw
        (
          append_assoc o.bytes (wire_options os) tail,
          parse_round-wire node_fits base size pre (wire_options os ++ tail) o reader unread result
              v hp,
          sum,
          advance-next node_fits base size room
              (pre ++ (host_option o ++ (wire_options os ++ tail))) reader n rest result'
              (omega arith) (omega arith) (omega arith),
        )
        (rw
          (
            append_assoc pre (host_option o) (wire_options os ++ tail),
            append_assoc pre (host_option o) (host_options os),
            end,
          )
          at ih)

  -- The whole parser, up to the last option, which starts at offset `4 + length (wire_options os)`.
  pub parse_options-prefix :
      (t : MsgType) (id : TransactionId) (os : List DhOption) (tail : Bytes) (left : ℕ)
      → wrong_type (msg_code t) ≡ false
      → All IsOption os
      → 0 < left
      → size ≡ wire_length os + left
      → parse_options node_fits base size (msg_code t ∷ id_bytes id ++ (wire_options os ++ tail))
        ≡ (parse_loop node_fits base size
              (suc size - length os)
              (host_packet t id os ++ tail)
              (wire_length os)
              left
              (scan node_fits 4 os nothing_parsed)
            >>= λ out. done (out.0, record (out.1) { success = true }))
  unfolding parse_options parse_content
  parse_options-prefix t id os tail left ht v hl hs =
      let unread : sub64 size 4 ≡ length (wire_options os) + left = omega arith in
      let more : (length (wire_options os) + left == 0) ≡ false = ground arith in
      rw (
        unread,
        more,
        ht,
        parse_loop-prefix os (suc size) (suc size - length os) (msg_code t ∷ id_bytes id) tail 4
            (length (wire_options os) + left) left nothing_parsed v refl refl (omega arith) hl
            (omega (arith, length-wire_options os)),
      )
