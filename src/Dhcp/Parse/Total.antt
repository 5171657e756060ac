-- ===== src/Dhcp/Parse/Total.antt =====
-- `dh_parseOptions` ends on every input.
use pdrad.Prelude.{
  ℕ, zero, suc, ◌+◌, ◌*◌, ◌/◌, ◌%◌, ◌^◌, ◌≤◌, ◌<◌, ◌≡◌, sym, ◌∙◌, ◌≢◌, refl, Bool, ◌==◌, arith,
}
use pdrad.Memory.{Bytes, done, fault, Fault, load8, load16, store16, htobe16, sub64}
use pdrad.Memory.Access.{
  Ends, Ends->>=, Ends-if, Ends→ne, Ends-load8, Ends-load16, Ends-write, >>=-eq-done,
  done-injective, load16-store16,
}
use pdrad.Dhcp.Packets.{swap_header}
use pdrad.Dhcp.Parse.{
  ParsedOptions, Round, advance, after_round, parse_round, parse_loop, parse_content, parse_options,
  nothing_parsed, wrong_type,
}

Ends-swap_header : (b : Bytes) (o : ℕ) → Ends (swap_header b o)
unfolding swap_header
Ends-swap_header b o = Ends->>= (load16 b o) _ (Ends-load16 b o) λ code e.
    Ends->>= (store16 b o (htobe16 code)) _ (Ends-write b o _) λ b' e'.
      Ends->>= (load16 b' (o + 2)) _ (Ends-load16 b' (o + 2)) λ len e''. Ends-write b' (o + 2) _

-- A length read after the swap is that of a 16-bit field.
swap_header-length :
    (b : Bytes) (o : ℕ) {b' : Bytes} {n : ℕ}
    → swap_header b o ≡ done b'
    → load16 b' (o + 2) ≡ done n
    → n < 65536
unfolding swap_header
swap_header-length b o {b'} {n} e h =
    let (code, p, q) = >>=-eq-done (load16 b o) _ e in
    let (c, p', q') = >>=-eq-done (store16 b o (htobe16 code)) _ q in
    let (len, p'', q'') = >>=-eq-done (load16 c (o + 2)) _ q' in
    let v : ℕ = htobe16 len in
    let same : v % 256 + 256 * (v / 256 % 256) ≡ n =
      done-injective (sym (load16-store16 c (o + 2) v q'') ∙ h) in
    omega arith

-- What a round that goes on has passed on.
pub record GoesOn (size reader unread r u : ℕ) : Type 0 where
  pub moved : reader + 4 ≤ r
  pub inside : r < size
  pub left : u ≡ sub64 size r

module _ (node_fits : ℕ → Bool) (base size : ℕ) (room : base + size + 2 ^ 17 ≤ 2 ^ 64) where
  advance-GoesOn :
      (buffer : Bytes) (reader unread n : ℕ) (result : ParsedOptions) {b : Bytes} {r u : ℕ}
      {res : ParsedOptions}
      → n < 65536
      → reader ≤ size + 4
      → unread ≡ sub64 size reader
      → advance node_fits base size buffer reader unread (n + 4) result ≡ Round.next b r u res
      → GoesOn size reader unread r u
  unfolding advance
  advance-GoesOn buffer reader unread n result hn hr hu e = ground arith

  pub parse_round-GoesOn :
      (buffer : Bytes) (reader unread : ℕ) (result : ParsedOptions) {b : Bytes} {r u : ℕ}
      {res : ParsedOptions}
      → reader ≤ size + 4
      → unread ≡ sub64 size reader
      → parse_round node_fits base size buffer reader unread result ≡ done (Round.next b r u res)
      → GoesOn size reader unread r u
  unfolding parse_round
  parse_round-GoesOn buffer reader unread result hr hu e =
      let (buffer', p, q) = >>=-eq-done (swap_header buffer reader) _ e in
      let (code, p', q') = >>=-eq-done (load16 buffer' reader) _ q in
      let (n, p'', q'') = >>=-eq-done (load16 buffer' (reader + 2)) _ q' in
      advance-GoesOn buffer' reader unread n _ (swap_header-length buffer reader p p'') hr hu
        (done-injective q'')

  Ends-parse_round :
      (buffer : Bytes) (reader unread : ℕ) (result : ParsedOptions)
      → Ends (parse_round node_fits base size buffer reader unread result)
  unfolding parse_round
  Ends-parse_round buffer reader unread result =
      Ends->>= (swap_header buffer reader) _ (Ends-swap_header buffer reader) λ b e.
        Ends->>= (load16 b reader) _ (Ends-load16 b reader)
          λ code e'. Ends->>= (load16 b (reader + 2)) _ (Ends-load16 b (reader + 2)) λ n e''. tt

  Ends-parse_loop :
      (fuel : ℕ) (buffer : Bytes) (reader unread : ℕ) (result : ParsedOptions)
      → reader ≤ size + 4
      → unread ≡ sub64 size reader
      → size + 4 < reader + fuel
      → Ends (parse_loop node_fits base size fuel buffer reader unread result)
  unfolding parse_loop
  Ends-parse_loop zero buffer reader unread result hr hu hf = absurd (omega arith)
  Ends-parse_loop (suc fuel) buffer reader unread result hr hu hf =
      Ends->>= (parse_round node_fits base size buffer reader unread result) _
        (Ends-parse_round buffer reader unread result)
        (ends (λ b r u res. Ends-parse_loop fuel b r u res))
    where
      ends :
          ((b : Bytes) (r u : ℕ) (res : ParsedOptions)
            → r ≤ size + 4
            → u ≡ sub64 size r
            → size + 4 < r + fuel
            → Ends (parse_loop node_fits base size fuel b r u res))
          → (round : Round)
          → parse_round node_fits base size buffer reader unread result ≡ done round
          → Ends (after_round (parse_loop node_fits base size fuel) round)
      ends ih (Round.stop b res) e = tt
      ends ih (Round.next b r u res) e =
          let g = parse_round-GoesOn buffer reader unread result hr hu e in
          ih b r u res (omega arith) g.left (omega arith)

  Ends-parse_content : (pkt : Bytes) → Ends (parse_content node_fits base size pkt (sub64 size 4))
  unfolding parse_content
  Ends-parse_content pkt =
      let loop = parse_loop node_fits base size (suc size) pkt 4 (sub64 size 4) nothing_parsed in
      Ends->>= loop _
        (Ends-parse_loop (suc size) pkt 4 (sub64 size 4) nothing_parsed (omega arith) refl
          (omega arith))
        λ out e. tt

  Ends-parse_options : (pkt : Bytes) → Ends (parse_options node_fits base size pkt)
  unfolding parse_options
  Ends-parse_options pkt = Ends-if (sub64 size 4 == 0) _ _ tt (
      Ends->>= (load8 pkt 0) _ (Ends-load8 pkt 0)
        λ t e. Ends-if (wrong_type t) (done (pkt, nothing_parsed)) _ tt (Ends-parse_content pkt))

  -- On every buffer, whatever its bytes and its length, and every packet size within the address
  -- space, the loop of `dh_parseOptions` ends: `size` rounds and one are enough.
  pub parse_options-ne-endless :
      (pkt : Bytes) → parse_options node_fits base size pkt ≢ fault Fault.endless
  parse_options-ne-endless pkt = Ends→ne _ (Ends-parse_options pkt)
