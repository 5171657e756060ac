-- ===== src/Daemon/Request/Exchange.antt =====
-- A reply with a delegated prefix, received.
use pdrad.Prelude.{
  ℕ, zero, suc, ◌+◌, ◌%◌, ◌-◌, ◌^◌, ◌≤◌, ◌<◌, ◌≡◌, ◌≢◌, refl, sym, ap, ◌∙◌, List, [], ◌∷◌, ◌++◌,
  append_assoc, append-nil, some, none, true, false, ◌==◌, arith, length, length-append, All, drop,
  entries, Bool,
}
use pdrad.Memory.{Bytes, done, fault, Fault, read, peek, ◌>>=◌, le16, be16, be32}
use pdrad.Memory.Laws.{
  entries-append-drop, length-entries, overwrite-append, peek-append, read-append,
}
use pdrad.Dhcp.Packets.{MsgType, msg_code, TransactionId, id_bytes}
use pdrad.Dhcp.Packets.Wire.{
  DhOption, IsOption, option, wire_option, wire_options, wire_packet, wire_length,
}
use pdrad.Dhcp.Parse.{ParsedOptions, parse_options, wrong_type}
use pdrad.Dhcp.Parse.Reads.{host_options, places, keep}
use pdrad.Dhcp.Parse.RoundTrip.{host_packet, found, parse_options-wire_packet}
use pdrad.Dhcp.Parse.Edges.{host_options-append, length-host_options}
use pdrad.Daemon.Request.{receive_reply, first_ia_pd, print_memory_hex}

-- The data of an IA_PD that starts with an IA Prefix option: identifier and times, the header of the
-- prefix option, and its data, here `lease`; `more` follows.
abbrev pub ia_pd_bytes : ℕ → ℕ → ℕ → Bytes → Bytes → Bytes
ia_pd_bytes id time1 time2 lease more =
    be32 id ++ be32 time1 ++ be32 time2 ++ be16 26 ++ be16 (length lease) ++ (lease ++ more)

-- The options of a reply with an IA_PD.
abbrev pub delegating : List DhOption → List DhOption → ℕ → ℕ → ℕ → Bytes → Bytes → List DhOption
delegating before after ia time1 time2 lease more =
    before ++ option 25 (ia_pd_bytes ia time1 time2 lease more) ∷ after

-- No option of a list has a code.
abbrev pub Lacks : ℕ → List DhOption → Type 0
Lacks code os = All (λ (o : DhOption). o.code ≢ code) os

places_first :
    (code at : ℕ) (before after : List DhOption) (o : DhOption)
    → Lacks code before
    → o.code ≡ code
    → places code at (before ++ o ∷ after)
      ≡ (at + length (wire_options before))
        ∷ places code (at + length (wire_options before) + (length o.bytes + 4)) after
places_first code at [] after o v h =
    let here : (o.code == code) ≡ true = ground arith in
    let same : at + 0 ≡ at = omega arith in rw (here, same)
places_first code at (p ∷ before) after o (hp, v) h =
    let other : (p.code == code) ≡ false = ground arith in
    let shift : at + (length p.bytes + 4) + length (wire_options before)
        ≡ at + length (wire_options (p ∷ before)) =
      omega (arith, length-append (wire_option p) (wire_options before)) in
    rw other (rw shift at (places_first code (at + (length p.bytes + 4)) before after o v h))

-- The parser on a packet with the options `before`, `o` and `after`.
parse_options_middle :
    (node_fits : ℕ → Bool) (base size : ℕ) (t : MsgType) (id : TransactionId)
    (before after : List DhOption) (o : DhOption) (slack : Bytes)
    → base + size + 2 ^ 17 ≤ 2 ^ 64
    → wrong_type (msg_code t) ≡ false
    → All IsOption (before ++ o ∷ after)
    → size ≡ wire_length (before ++ o ∷ after)
    → parse_options node_fits base size (wire_packet t id (before ++ o ∷ after) ++ slack)
      ≡ done
          (host_packet t id (before ++ o ∷ after) ++ slack, found node_fits (before ++ o ∷ after))
parse_options_middle node_fits base size t id [] after o slack room ht v hs =
    parse_options-wire_packet node_fits base size room t id o after slack ht v hs
parse_options_middle node_fits base size t id (p ∷ before) after o slack room ht v hs =
    parse_options-wire_packet node_fits base size room t id p (before ++ o ∷ after) slack ht v hs

regroup :
    (x d more y slack : Bytes) (start lease : Bytes)
    → (x ++ ((d ++ (start ++ (lease ++ more))) ++ y)) ++ slack
      ≡ (x ++ (d ++ start)) ++ (lease ++ (more ++ (y ++ slack)))
regroup x d more y slack start lease = simp (append_assoc)

-- The 25 bytes of the lease stand 20 bytes behind the place of the IA_PD.
read_lease :
    (t : MsgType) (id : TransactionId) (before after : List DhOption) (ia time1 time2 : ℕ)
    (lease more slack : Bytes) (at : ℕ)
    → length lease ≡ 25
    → at ≡ 4 + length (wire_options before) + 4 + 12 + 4
    → read (host_packet t id (delegating before after ia time1 time2 lease more) ++ slack) at 25
      ≡ done lease
read_lease t id before after ia time1 time2 lease more slack at h e =
    let o = option 25 (ia_pd_bytes ia time1 time2 lease more) in
    let head = msg_code t ∷ id_bytes id in
    let start = be32 ia ++ be32 time1 ++ be32 time2 ++ be16 26 ++ be16 (length lease) in
    let front =
      head ++ (host_options before ++ (le16 o.code ++ (le16 (length o.bytes) ++ start))) in
    let same : host_packet t id (before ++ o ∷ after) ++ slack
        ≡ front ++ (lease ++ (more ++ (host_options after ++ slack))) =
      rw (host_options-append before (o ∷ after)) (
        ap (λ r. head ++ r)
          (regroup (host_options before) (le16 o.code ++ le16 (length o.bytes)) more
            (host_options after) slack start lease)) in
    let long : length front ≡ at = omega (
      arith,
      length-append (host_options before) (le16 o.code ++ (le16 (length o.bytes) ++ start)),
      length-host_options before,
    ) in
    rw (same, read-append front (lease ++ (more ++ (host_options after ++ slack))) at 25 long)
      (peek-append lease (more ++ (host_options after ++ slack)) 25 h)

first_kept :
    (node_fits : ℕ → Bool) (at : ℕ) (before after : List DhOption) (o : DhOption)
    → Lacks 25 before
    → o.code ≡ 25
    → node_fits (at + length (wire_options before)) ≡ true
    → first_ia_pd (keep node_fits (places 25 at (before ++ o ∷ after)))
      ≡ done (at + length (wire_options before))
first_kept node_fits at before after o v h fits = rw (places_first 25 at before after o v h, fits)

print_memory_hex-append : (d r : Bytes) → print_memory_hex (some (d ++ r)) (length d) ≡ done d
unfolding print_memory_hex
print_memory_hex-append [] r = refl
print_memory_hex-append (x ∷ d) r = peek-append (x ∷ d) r (suc (length d)) refl

pub print_memory_hex_all : (d : Bytes) → print_memory_hex (some d) (length d) ≡ done d
print_memory_hex_all d =
    ap (λ r. print_memory_hex (some r) (length d)) (sym (append-nil d))
    ∙ print_memory_hex-append d []

-- What is received stands at the start of the buffer, is parsed, and the prefix is read.
receive_bytes :
    (node_fits : ℕ → Bool) (base x y z w : ℕ) (rest slack old buffer' : Bytes)
    (parsed : ParsedOptions)
    → length old ≡ suc (suc (suc (suc (length rest))))
    → parse_options node_fits base (length (x ∷ y ∷ z ∷ w ∷ rest)) ((x ∷ y ∷ z ∷ w ∷ rest) ++ slack)
      ≡ done (buffer', parsed)
    → receive_reply node_fits base (old ++ slack) (some (x ∷ y ∷ z ∷ w ∷ rest)) ≡ (
        first_ia_pd parsed.ia_pd_list >>= λ pd.
        read buffer' (pd + 4 + 12 + 4) 25 >>= λ prefix. done (buffer', prefix))
unfolding receive_reply
receive_bytes node_fits base x y z w rest slack old buffer' parsed h e = rw (
  overwrite-append old (x ∷ y ∷ z ∷ w ∷ rest) slack h,
  print_memory_hex-append (x ∷ y ∷ z ∷ w ∷ rest) slack,
  e,
)

pub receive_reply_lem :
    (node_fits : ℕ → Bool) (base : ℕ) (t : MsgType) (id : TransactionId)
    (before after : List DhOption) (ia time1 time2 : ℕ) (lease more buffer : Bytes)
    → wrong_type (msg_code t) ≡ false
    → Lacks 25 before
    → All IsOption (delegating before after ia time1 time2 lease more)
    → length lease ≡ 25
    → node_fits (4 + length (wire_options before)) ≡ true
    → wire_length (delegating before after ia time1 time2 lease more) ≤ length buffer
    → base + length buffer + 2 ^ 17 ≤ 2 ^ 64
    → receive_reply node_fits base buffer
        (some (wire_packet t id (delegating before after ia time1 time2 lease more)))
      ≡ done (
        host_packet t id (delegating before after ia time1 time2 lease more)
            ++ drop (wire_length (delegating before after ia time1 time2 lease more)) buffer,
        lease,
      )
receive_reply_lem node_fits base t id before after ia time1 time2 lease more buffer ht lacks v hl
      fits room space =
    let o = option 25 (ia_pd_bytes ia time1 time2 lease more) in
    let os = before ++ o ∷ after in
    let packet = wire_packet t id os in
    let slack = drop (wire_length os) buffer in
    let long : length packet ≡ wire_length os = omega arith in
    let parsed =
      parse_options_middle node_fits base (length packet) t id before after o slack (omega arith) ht
        v long in
    let received =
      receive_bytes node_fits base (msg_code t) (id.id_0 % 256) (id.id_1 % 256) (id.id_2 % 256)
        (wire_options os) slack (entries (wire_length os) buffer) _ (found node_fits os)
        (length-entries (wire_length os) buffer ∙ sym long) parsed in
    ap (λ b. receive_reply node_fits base b (some packet))
      (entries-append-drop (wire_length os) buffer room)
    ∙ received
    ∙ (rw (
      first_kept node_fits 4 before after o lacks refl fits,
      read_lease t id before after ia time1 time2 lease more slack
          (4 + length (wire_options before) + 4 + 12 + 4) hl refl,
    ))

-- What is received has no IA_PD.
places_none : (code at : ℕ) (os : List DhOption) → Lacks code os → places code at os ≡ []
places_none code at [] v = refl
places_none code at (p ∷ os) (hp, v) =
    let other : (p.code == code) ≡ false = ground arith in
    rw other (places_none code (at + (length p.bytes + 4)) os v)

pub receive_reply_lacking :
    (node_fits : ℕ → Bool) (base : ℕ) (t : MsgType) (id : TransactionId) (o : DhOption)
    (os : List DhOption) (buffer : Bytes)
    → wrong_type (msg_code t) ≡ false
    → Lacks 25 (o ∷ os)
    → All IsOption (o ∷ os)
    → wire_length (o ∷ os) ≤ length buffer
    → base + length buffer + 2 ^ 17 ≤ 2 ^ 64
    → receive_reply node_fits base buffer (some (wire_packet t id (o ∷ os)))
      ≡ fault Fault.null_pointer
receive_reply_lacking node_fits base t id o os buffer ht lacks v room space =
    let packet = wire_packet t id (o ∷ os) in
    let slack = drop (wire_length (o ∷ os)) buffer in
    let long : length packet ≡ wire_length (o ∷ os) = omega arith in
    let parsed =
      parse_options-wire_packet node_fits base (length packet) (omega arith) t id o os slack ht v
        long in
    let received =
      receive_bytes node_fits base (msg_code t) (id.id_0 % 256) (id.id_1 % 256) (id.id_2 % 256)
        (wire_options (o ∷ os)) slack (entries (wire_length (o ∷ os)) buffer) _
        (found node_fits (o ∷ os)) (length-entries (wire_length (o ∷ os)) buffer ∙ sym long)
        parsed in
    ap (λ b. receive_reply node_fits base b (some packet))
      (entries-append-drop (wire_length (o ∷ os)) buffer room)
    ∙ received
    ∙ (rw (places_none 25 4 (o ∷ os) lacks))

peek_overrun : (b : Bytes) (n : ℕ) → length b < n → peek b n ≡ fault Fault.out_of_bounds
peek_overrun b zero h = absurd (omega arith)
peek_overrun [] (suc n) h = refl
peek_overrun (x ∷ b) (suc n) h = rw (peek_overrun b n (omega arith))

pub receive_reply_failed :
    (node_fits : ℕ → Bool) (base : ℕ) (buffer : Bytes)
    → length buffer < 2 ^ 64 - 1
    → receive_reply node_fits base buffer none ≡ fault Fault.out_of_bounds
unfolding receive_reply print_memory_hex
receive_reply_failed node_fits base buffer h = rw (peek_overrun buffer (2 ^ 64 - 1) h)
