-- ===== src/Dhcp/Parse/Edges.antt =====
-- `dh_parseOptions` on packets that are not well formed.
use pdrad.Prelude.{
  ℕ, suc, ◌+◌, ◌-◌, ◌^◌, ◌≤◌, ◌<◌, ◌≡◌, sym, ap, ap₂, ◌∙◌, refl, List, [], ◌∷◌, ◌++◌, append_assoc,
  Bool, true, false, not, ◌&&◌, if◌then◌else◌, ◌==◌, arith, length, length-append, All,
}
use pdrad.Memory.{Bytes, Run, done, fault, Fault, sub64, load8}
use pdrad.Memory.Access.{>>=-eq-done, done-injective}
use pdrad.Dhcp.Packets.{MsgType, msg_code, TransactionId, id_bytes}
use pdrad.Dhcp.Packets.Wire.{
  DhOption, IsOption, host_option, wire_option, wire_options, wire_packet, wire_length,
}
use pdrad.Dhcp.Parse.{
  ParsedOptions, Round, advance, record_option, parse_round, parse_loop, parse_content,
  parse_options, nothing_parsed, wrong_type,
}
use pdrad.Dhcp.Parse.Reads.{host_options, scan, parse_round-wire}
use pdrad.Dhcp.Parse.RoundTrip.{host_packet, found, scan-found}
use pdrad.Dhcp.Parse.Prefix.{swap_header_out, length-wire_options, parse_options-prefix}

wire_options-append :
    (os ps : List DhOption) → wire_options (os ++ ps) ≡ wire_options os ++ wire_options ps
wire_options-append [] ps = refl
wire_options-append (o ∷ os) ps =
    rw (wire_options-append os ps, append_assoc o.bytes (wire_options os) (wire_options ps))

pub host_options-append :
    (os ps : List DhOption) → host_options (os ++ ps) ≡ host_options os ++ host_options ps
host_options-append [] ps = refl
host_options-append (o ∷ os) ps =
    rw (host_options-append os ps, append_assoc o.bytes (host_options os) (host_options ps))

scan-append :
    (node_fits : ℕ → Bool) (at : ℕ) (os ps : List DhOption) (result : ParsedOptions)
    → scan node_fits at (os ++ ps) result
      ≡ scan node_fits (at + length (wire_options os)) ps (scan node_fits at os result)
unfolding scan
scan-append node_fits at [] ps result = ap (λ a. scan node_fits a ps result) (omega arith)
scan-append node_fits at (o ∷ os) ps result =
    scan-append node_fits (at + (length o.bytes + 4)) os ps _
    ∙ ap
        (λ a. scan node_fits a ps (
          scan node_fits (at + (length o.bytes + 4)) os (record_option node_fits o.code at result)))
        (omega (arith, length-append (wire_option o) (wire_options os)))

host_packet_snoc :
    (t : MsgType) (id : TransactionId) (os : List DhOption) (o : DhOption) (rest : Bytes)
    → host_packet t id (os ++ o ∷ []) ++ rest ≡ host_packet t id os ++ (host_option o ++ rest)
host_packet_snoc t id os o rest = rw (
  host_options-append os (o ∷ []),
  append_assoc (host_options os) (host_options (o ∷ [])) rest,
  append_assoc o.bytes [] rest,
)

found_snoc :
    (node_fits : ℕ → Bool) (os : List DhOption) (o : DhOption)
    → record (record_option node_fits o.code
        (wire_length os)
        (scan node_fits 4 os nothing_parsed)) { success = true }
      ≡ found node_fits (os ++ o ∷ [])
unfolding scan
found_snoc node_fits os o =
    ap (λ (r : ParsedOptions). record r { success = true })
      (sym (scan-append node_fits 4 os (o ∷ []) nothing_parsed))
    ∙ scan-found node_fits (os ++ o ∷ [])

pub length-host_options : (os : List DhOption) → length (host_options os) ≡ length (wire_options os)
length-host_options [] = refl
length-host_options (o ∷ os) = omega (
  arith,
  length-append (host_option o) (host_options os),
  length-append (wire_option o) (wire_options os),
  length-host_options os,
)

module _ (node_fits : ℕ → Bool) (base size : ℕ) (room : base + size + 2 ^ 17 ≤ 2 ^ 64) where
  advance_past :
      (b : Bytes) (reader unread n : ℕ) (result : ParsedOptions)
      → size < reader + n
      → reader + n < size + 2 ^ 17
      → advance node_fits base size b reader unread n result ≡ Round.stop b result
  unfolding advance
  advance_past b reader unread n result h k = ground arith

  -- If a packet has bytes behind its last option and the buffer ends less than four bytes behind
  -- that option, `dh_parseOptions` leaves the buffer.
  pub parse_options_stray :
      (t : MsgType) (id : TransactionId) (os : List DhOption) (stray : Bytes) (left : ℕ)
      → wrong_type (msg_code t) ≡ false
      → All IsOption os
      → 0 < left
      → length stray < 4
      → size ≡ wire_length os + left
      → parse_options node_fits base size (wire_packet t id os ++ stray) ≡ fault Fault.out_of_bounds
  unfolding parse_loop parse_round
  parse_options_stray t id os stray left ht v hl hstray hs =
      let fuel : suc size - length os ≡ suc (size - length os) =
        omega (arith, length-wire_options os) in
      let short : length (host_packet t id os ++ stray) < wire_length os + 4 =
        omega (arith, length-append (host_options os) stray, length-host_options os) in
      rw (
        parse_options-prefix node_fits base size room t id os stray left ht v hl hs,
        fuel,
        swap_header_out (host_packet t id os ++ stray) (wire_length os) short,
      )

  -- A packet that ends within its last option, if the buffer goes on, is accepted:
  -- `dh_parseOptions` returns what it would return if the option were whole, `success` included,
  -- and counts that option among those it found.
  pub parse_options_truncated :
      (t : MsgType) (id : TransactionId) (os : List DhOption) (o : DhOption) (rest : Bytes)
      (left : ℕ)
      → wrong_type (msg_code t) ≡ false
      → All IsOption os
      → IsOption o
      → 0 < left
      → left < length o.bytes + 4
      → size ≡ wire_length os + left
      → parse_options node_fits base size (wire_packet t id (os ++ o ∷ []) ++ rest)
        ≡ done (host_packet t id (os ++ o ∷ []) ++ rest, found node_fits (os ++ o ∷ []))
  unfolding parse_loop
  parse_options_truncated t id os o rest left ht v vo hl hshort hs =
      let fuel : suc size - length os ≡ suc (size - length os) =
        omega (arith, length-wire_options os) in
      rw
        (
          wire_options-append os (o ∷ []),
          append_assoc (wire_options os) (wire_options (o ∷ [])) rest,
          append_assoc o.bytes [] rest,
          parse_options-prefix node_fits base size room t id os (wire_option o ++ rest) left ht v hl
              hs,
          fuel,
          parse_round-wire node_fits base size (host_packet t id os) rest o (wire_length os) left
              (scan node_fits 4 os nothing_parsed) vo (omega (arith, length-host_options os)),
          advance_past (host_packet t id os ++ (host_option o ++ rest)) (wire_length os) left
              (length o.bytes + 4) _ (omega arith) (omega arith),
        )
        (ap₂ (λ b r. done (b, r)) (sym (host_packet_snoc t id os o rest))
          (found_snoc node_fits os o))

  -- A packet of less than four bytes, which has no whole header, is accepted: the length that is
  -- left wraps round, and `dh_parseOptions` takes the bytes behind the header's place for an
  -- option and returns `success` with it.
  pub parse_options_short :
      (t : MsgType) (id : TransactionId) (o : DhOption) (rest : Bytes)
      → wrong_type (msg_code t) ≡ false
      → IsOption o
      → size < 4
      → parse_options node_fits base size (wire_packet t id (o ∷ []) ++ rest)
        ≡ done (host_packet t id (o ∷ []) ++ rest, found node_fits (o ∷ []))
  unfolding parse_options parse_content parse_loop scan
  parse_options_short t id o rest ht vo hs =
      let more : (sub64 size 4 == 0) ≡ false = ground arith in
      rw
        (
          more,
          ht,
          append_assoc o.bytes [] rest,
          parse_round-wire node_fits base size (msg_code t ∷ id_bytes id) rest o 4 (sub64 size 4)
              nothing_parsed vo refl,
          advance_past (msg_code t ∷ id_bytes id ++ (host_option o ++ rest)) 4 (sub64 size 4)
              (length o.bytes + 4) _ (omega arith) (omega arith),
        )
        (ap (λ r. done (msg_code t ∷ id_bytes id ++ (host_option o ++ rest), r))
          (found_snoc node_fits [] o))

-- The flag `success` of a run that returns.
parse_content-success :
    (node_fits : ℕ → Bool) (base size : ℕ) (pkt : Bytes) (unread : ℕ) {pkt' : Bytes}
    {result : ParsedOptions}
    → parse_content node_fits base size pkt unread ≡ done (pkt', result)
    → result.success ≡ true
unfolding parse_content
parse_content-success node_fits base size pkt unread e =
    let (out, p, q) =
      >>=-eq-done (parse_loop node_fits base size (suc size) pkt 4 unread nothing_parsed) _ e in
    ap (λ (o : Bytes × ParsedOptions). o.1.success) (sym (done-injective q))

success_cases :
    (a c : Bool) (pkt : Bytes) (content : Run (Bytes × ParsedOptions)) {pkt' : Bytes}
    {result : ParsedOptions}
    → (content ≡ done (pkt', result) → result.success ≡ true)
    → (if a then done (pkt, nothing_parsed) else if c then done (pkt, nothing_parsed) else content)
      ≡ done (pkt', result)
    → result.success ≡ (not a && not c)
success_cases true c pkt content h e =
    ap (λ (o : Bytes × ParsedOptions). o.1.success) (sym (done-injective e))
success_cases false true pkt content h e =
    ap (λ (o : Bytes × ParsedOptions). o.1.success) (sym (done-injective e))
success_cases false false pkt content h e = h e

-- Where `dh_parseOptions` returns, `success` is exactly the test that `size` is not 4 and that the
-- first byte is ADVERTISE or REPLY: nothing of the options enters.
pub parse_options-success :
    (node_fits : ℕ → Bool) (base size : ℕ) (pkt : Bytes) {t : ℕ} {pkt' : Bytes}
    {result : ParsedOptions}
    → load8 pkt 0 ≡ done t
    → parse_options node_fits base size pkt ≡ done (pkt', result)
    → (result.success ≡ (not (sub64 size 4 == 0) && not (wrong_type t)))
unfolding parse_options
parse_options-success node_fits base size pkt {t} {pkt'} {result} ht e =
    success_cases (sub64 size 4 == 0) (wrong_type t) pkt
      (parse_content node_fits base size pkt (sub64 size 4))
      (parse_content-success node_fits base size pkt (sub64 size 4)) (rw ht at e)
