-- ===== src/Dhcp/Parse/Safe.antt =====
-- Where `dh_parseOptions` stays inside its buffer.
use pdrad.Prelude.{
  ℕ, zero, suc, ◌+◌, ◌^◌, ◌≤◌, ◌<◌, ◌≡◌, ◌∙◌, refl, Bool, true, ◌==◌, arith, length, if_both,
}
use pdrad.Memory.{Bytes, Run, done, le16, htobe16, sub64}
use pdrad.Memory.Access.{load8_in, load16_in, write_in}
use pdrad.Dhcp.Packets.{swap_header}
use pdrad.Dhcp.Parse.{
  ParsedOptions, Round, advance, after_round, record_option, parse_round, parse_loop, parse_content,
  parse_options, nothing_parsed, wrong_type,
}
use pdrad.Dhcp.Parse.Total.{parse_round-GoesOn}

pub swap_header_in :
    (b : Bytes) (o : ℕ)
    → o + 4 ≤ length b
    → (b' : Bytes) × (swap_header b o ≡ done b') × (length b' ≡ length b)
unfolding swap_header
swap_header_in b o h =
    let (code, p) = load16_in b o (omega arith) in
    let (c, p', l) = write_in b o (le16 (htobe16 code)) (omega arith) in
    let (len, p'') = load16_in c (o + 2) (omega arith) in
    let (d, p''', l') = write_in c (o + 2) (le16 (htobe16 len)) (omega arith) in
    (d, rw (p, p', p'') p''', l' ∙ l)

abbrev round_buffer : Round → Bytes
round_buffer (Round.stop b res) = b
round_buffer (Round.next b r u res) = b

-- The run returns a buffer of the same length.
abbrev pub Keeps : Bytes → Run (Bytes × ParsedOptions) → Type 0
Keeps pkt r = (out : Bytes × ParsedOptions) × (r ≡ done out) × (length out.0 ≡ length pkt)

module _ (node_fits : ℕ → Bool) (base size : ℕ) (room : base + size + 2 ^ 17 ≤ 2 ^ 64) where
  round_buffer-advance :
      (b : Bytes) (reader unread n : ℕ) (result : ParsedOptions)
      → round_buffer (advance node_fits base size b reader unread n result) ≡ b
  unfolding advance
  round_buffer-advance b reader unread n result = ground arith

  parse_round_in :
      (b : Bytes) (reader unread : ℕ) (result : ParsedOptions)
      → reader + 4 ≤ length b
      → (round : Round) × (parse_round node_fits base size b reader unread result ≡ done round)
        × (length (round_buffer round) ≡ length b)
  unfolding parse_round
  parse_round_in b reader unread result h =
      let (c, p, l) = swap_header_in b reader h in
      let (code, q) = load16_in c reader (omega arith) in
      let (n, q') = load16_in c (reader + 2) (omega arith) in
      (
        advance node_fits base size c reader unread (n + 4)
            (record_option node_fits code reader result),
        rw (p, q, q'),
        rw round_buffer-advance l,
      )

  parse_loop_in :
      (fuel : ℕ) (b : Bytes) (reader unread : ℕ) (result : ParsedOptions)
      → reader ≤ size + 4
      → unread ≡ sub64 size reader
      → size + 4 < reader + fuel
      → reader + 4 ≤ length b
      → size + 3 ≤ length b
      → (out : Bytes × ParsedOptions) × (parse_loop node_fits base size fuel b reader unread result
          ≡ done out)
        × (length out.0 ≡ length b)
  unfolding parse_loop
  parse_loop_in zero b reader unread result hr hu hf hb hs = absurd (omega arith)
  parse_loop_in (suc fuel) b reader unread result hr hu hf hb hs =
      let (round, e, l) = parse_round_in b reader unread result hb in
      rw e (ends (λ c r u res. parse_loop_in fuel c r u res) round e l)
    where
      ends :
          ((c : Bytes) (r u : ℕ) (res : ParsedOptions)
            → r ≤ size + 4
            → u ≡ sub64 size r
            → size + 4 < r + fuel
            → r + 4 ≤ length c
            → size + 3 ≤ length c
            → (out : Bytes × ParsedOptions) × (parse_loop node_fits base size fuel c r u res
                ≡ done out)
              × (length out.0 ≡ length c))
          → (round : Round) → parse_round node_fits base size b reader unread result ≡ done round
          → length (round_buffer round) ≡ length b
          → (out : Bytes × ParsedOptions) × (after_round (parse_loop node_fits base size fuel) round
              ≡ done out)
            × (length out.0 ≡ length b)
      ends ih (Round.stop c res) e l = ((c, res), refl, l)
      ends ih (Round.next c r u res) e l =
          let g = parse_round-GoesOn node_fits base size room b reader unread result hr hu e in
          let (out, p, k) =
            ih c r u res (omega arith) g.left (omega arith) (omega arith) (omega arith) in
          (out, p, k ∙ l)

  parse_content_in :
      (pkt : Bytes)
      → size + 3 ≤ length pkt
      → 8 ≤ length pkt
      → Keeps pkt (parse_content node_fits base size pkt (sub64 size 4))
  unfolding parse_content
  parse_content_in pkt hs h8 =
      let (out, e, l) =
        parse_loop_in (suc size) pkt 4 (sub64 size 4) nothing_parsed (omega arith) refl
          (omega arith) h8 hs in
      ((out.0, record (out.1) { success = true }), rw e, l)

  -- If the buffer holds three bytes more than the packet and eight bytes at least, and the packet
  -- lies within the address space, then `dh_parseOptions` returns on every content: it neither
  -- leaves the buffer nor runs on, and the buffer keeps its length.
  pub parse_options_in :
      (pkt : Bytes)
      → size + 3 ≤ length pkt
      → 8 ≤ length pkt
      → Keeps pkt (parse_options node_fits base size pkt)
  unfolding parse_options
  parse_options_in pkt hs h8 =
      let (t, e) = load8_in pkt 0 (omega arith) in
      if_both (Keeps pkt) (sub64 size 4 == 0) {x = done (pkt, nothing_parsed)}
        ((pkt, nothing_parsed), refl, refl)
        (rw e (
          if_both (Keeps pkt) (wrong_type t) {x = done (pkt, nothing_parsed)}
            ((pkt, nothing_parsed), refl, refl) (parse_content_in pkt hs h8)))
