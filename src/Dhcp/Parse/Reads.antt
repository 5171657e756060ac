-- ===== src/Dhcp/Parse/Reads.antt =====
-- What `dh_parseOptions` reads from a well-formed packet.
use pdrad.Prelude.{
  ℕ, zero, suc, ◌+◌, ◌*◌, ◌^◌, ◌≤◌, ◌<◌, ◌≡◌, sym, ap, refl, List, [], ◌∷◌, ◌++◌, append_assoc,
  append-nil, Option, some, Bool, if◌then◌else◌, ◌==◌, arith, length, length-append, All,
}
use pdrad.Memory.{Bytes, done, load16, le16}
use pdrad.Memory.Laws.{load16-append, halves16}
use pdrad.Dhcp.Options.{option_clientid, option_serverid, option_ia_pd}
use pdrad.Dhcp.Packets.Wire.{
  DhOption, IsOption, host_option, wire_option, wire_options, swap_header-wire,
}
use pdrad.Dhcp.Parse.{
  ParsedOptions, Round, advance, append_node, record_option, parse_round, parse_loop,
}

abbrev pub host_options : List DhOption → Bytes
host_options [] = []
host_options (o ∷ os) = host_option o ++ host_options os

-- The offsets of the options with a code, of those from offset `at` on.
abbrev pub places : ℕ → ℕ → List DhOption → List ℕ
places code at [] = []
places code at (o ∷ os) =
    if o.code == code
    then at ∷ places code (at + (length o.bytes + 4)) os
    else places code (at + (length o.bytes + 4)) os

abbrev pub last_of : Option ℕ → List ℕ → Option ℕ
last_of d [] = d
last_of d (x ∷ xs) = last_of (some x) xs

abbrev pub keep : (ℕ → Bool) → List ℕ → List ℕ
keep p [] = []
keep p (x ∷ xs) = if p x then x ∷ keep p xs else keep p xs

load16_second :
    (pre : Bytes) (a b x y : ℕ) (post : Bytes) (o : ℕ)
    → length pre ≡ o
    → load16 (pre ++ a ∷ b ∷ x ∷ y ∷ post) (o + 2) ≡ done (x + 256 * y)
load16_second pre a b x y post o h = rw (append_assoc pre (a ∷ b ∷ []) (x ∷ y ∷ post)) at (
    load16-append (pre ++ a ∷ b ∷ []) x y post (o + 2)
      (omega (arith, length-append pre (a ∷ b ∷ []))))

module _ (node_fits : ℕ → Bool) where
  -- The options that are recorded, one after the other.
  unfoldable pub scan : ℕ → List DhOption → ParsedOptions → ParsedOptions
  scan at [] result = result
  scan at (o ∷ os) result =
      scan (at + (length o.bytes + 4)) os (record_option node_fits o.code at result)

  pub scan-client_identifier :
      (at : ℕ) (os : List DhOption) (result : ParsedOptions)
      → (scan at os result).client_identifier
        ≡ last_of result.client_identifier (places option_clientid at os)
  unfolding scan record_option
  scan-client_identifier at [] result = refl
  scan-client_identifier at (o ∷ os) result = ground (
    arith,
    scan-client_identifier (at + (length o.bytes + 4)) os
        (record_option node_fits o.code at result),
  )

  pub scan-server_identifier :
      (at : ℕ) (os : List DhOption) (result : ParsedOptions)
      → (scan at os result).server_identifier
        ≡ last_of result.server_identifier (places option_serverid at os)
  unfolding scan record_option
  scan-server_identifier at [] result = refl
  scan-server_identifier at (o ∷ os) result = ground (
    arith,
    scan-server_identifier (at + (length o.bytes + 4)) os
        (record_option node_fits o.code at result),
  )

  pub scan-elapsed_time :
      (at : ℕ) (os : List DhOption) (result : ParsedOptions)
      → (scan at os result).elapsed_time ≡ result.elapsed_time
  unfolding scan record_option
  scan-elapsed_time at [] result = refl
  scan-elapsed_time at (o ∷ os) result = ground (
    arith,
    scan-elapsed_time (at + (length o.bytes + 4)) os (record_option node_fits o.code at result),
  )

  append_node-append : (xs : List ℕ) (at : ℕ) → append_node xs at ≡ xs ++ (at ∷ [])
  unfolding append_node
  append_node-append [] at = refl
  append_node-append (x ∷ xs) at = ap (λ r. x ∷ r) (append_node-append xs at)

  pub scan-ia_pd_list :
      (at : ℕ) (os : List DhOption) (result : ParsedOptions)
      → (scan at os result).ia_pd_list
        ≡ result.ia_pd_list ++ keep node_fits (places option_ia_pd at os)
  unfolding scan record_option
  scan-ia_pd_list at [] result = sym (append-nil result.ia_pd_list)
  scan-ia_pd_list at (o ∷ os) result =
      let at' = at + (length o.bytes + 4) in
      ground (
        arith,
        scan-ia_pd_list at' os (record_option node_fits o.code at result),
        append_node-append result.ia_pd_list at,
        append_assoc result.ia_pd_list (at ∷ []) (keep node_fits (places option_ia_pd at' os)),
      )

module _ (node_fits : ℕ → Bool) (base size : ℕ) where
  pub parse_round-wire :
      (pre post : Bytes) (o : DhOption) (reader unread : ℕ) (result : ParsedOptions)
      → IsOption o
      → length pre ≡ reader
      → parse_round node_fits base size (pre ++ (wire_option o ++ post)) reader unread result
        ≡ done (
            advance node_fits base size
              (pre ++ (host_option o ++ post))
              reader
              unread
              (length o.bytes + 4)
              (record_option node_fits o.code reader result))
  unfolding parse_round
  parse_round-wire pre post o reader unread result v h = rw (
    swap_header-wire pre post o reader v h,
    load16-append pre _ _ (le16 (length o.bytes) ++ o.bytes ++ post) reader h,
    load16_second pre _ _ _ _ (o.bytes ++ post) reader h,
    halves16 _ v.code_fits,
    halves16 _ v.length_fits,
  )

module _ (node_fits : ℕ → Bool) (base size : ℕ) (room : base + size + 2 ^ 17 ≤ 2 ^ 64) where
  advance-stop :
      (b : Bytes) (reader n : ℕ) (result : ParsedOptions)
      → n < 2 ^ 64
      → advance node_fits base size b reader n n result ≡ Round.stop b result
  unfolding advance
  advance-stop b reader n result h = ground arith

  pub advance-next :
      (b : Bytes) (reader n left : ℕ) (result : ParsedOptions)
      → 0 < left
      → n + left < 2 ^ 64
      → reader + n + left ≡ size
      → advance node_fits base size b reader (n + left) n result
        ≡ Round.next b (reader + n) left result
  unfolding advance
  advance-next b reader n left result h k e = ground arith

  pub parse_loop-wire :
      (o : DhOption) (os : List DhOption) (fuel : ℕ) (pre slack : Bytes) (reader unread : ℕ)
      (result : ParsedOptions)
      → All IsOption (o ∷ os)
      → length pre ≡ reader
      → unread ≡ length (wire_options (o ∷ os))
      → reader + unread ≡ size
      → unread < fuel
      → parse_loop node_fits base size fuel
          (pre ++ (wire_options (o ∷ os) ++ slack))
          reader
          unread
          result
        ≡ done (pre ++ (host_options (o ∷ os) ++ slack), scan node_fits reader (o ∷ os) result)
  unfolding parse_loop scan
  parse_loop-wire o os zero pre slack reader unread result v hp hu hs hf = absurd (omega arith)
  parse_loop-wire o [] (suc fuel) pre slack reader unread result (v, vs) hp hu hs hf =
      let n = length o.bytes + 4 in
      let last : unread ≡ n = omega (arith, length-append (wire_option o) []) in
      rw (
        append_assoc o.bytes [] slack,
        parse_round-wire node_fits base size pre slack o reader unread result v hp,
        last,
        advance-stop (pre ++ (host_option o ++ slack)) reader n
            (record_option node_fits o.code reader result) (omega arith),
      )
  parse_loop-wire o (p ∷ os) (suc fuel) pre slack reader unread result (v, vs) hp hu hs hf =
      let n = length o.bytes + 4 in
      let left = length (wire_options (p ∷ os)) in
      let result' = record_option node_fits o.code reader result in
      let all = append_assoc pre (host_option o) in
      let sum : unread ≡ n + left =
        omega (arith, hu, length-append (wire_option o) (wire_options (p ∷ os))) in
      let some_left : 0 < left = omega (arith, length-append (wire_option p) (wire_options os)) in
      let ih =
        parse_loop-wire p os fuel (pre ++ host_option o) slack (reader + n) left result' vs
          (omega (arith, length-append pre (host_option o))) refl (omega arith) (omega arith) in
      rw
        (
          append_assoc o.bytes (wire_options (p ∷ os)) slack,
          append_assoc o.bytes (host_options (p ∷ os)) slack,
          parse_round-wire node_fits base size pre (wire_options (p ∷ os) ++ slack) o reader unread
              result v hp,
          sum,
          advance-next (pre ++ (host_option o ++ (wire_options (p ∷ os) ++ slack))) reader n left
              result' some_left (omega arith) (omega arith),
        )
        (rw (all (wire_options (p ∷ os) ++ slack), all (host_options (p ∷ os) ++ slack)) at ih)
