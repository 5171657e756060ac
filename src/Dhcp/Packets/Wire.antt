-- ===== src/Dhcp/Packets/Wire.antt =====
-- What `dh_createPacket` puts on the wire.
use pdrad.Prelude.{
  ℕ, ◌+◌, ◌*◌, ◌%◌, ◌^◌, ◌<◌, ◌≡◌, refl, ap, List, [], ◌∷◌, ◌++◌, arith, length, length-append, All,
  entries, drop, length-drop, append_assoc, some,
}
use pdrad.Memory.{Bytes, Ptr, done, ◌>>=◌, Malloc, le16, htobe16, add64, load16, store16}
use pdrad.Memory.Laws.{
  entries-append-drop, length-entries, write-append, load16-append, peek_all, halves16,
}
pub use pdrad.Dhcp.Options.Format.{DhOption, IsOption, option, host_option, wire_option}
use pdrad.Dhcp.Packets.{
  MsgType, msg_code, TransactionId, id_bytes, swap_header, packet_length, copy_options,
  create_packet,
}

abbrev pub wire_options : List DhOption → Bytes
wire_options [] = []
wire_options (o ∷ os) = wire_option o ++ wire_options os

abbrev pub wire_packet : MsgType → TransactionId → List DhOption → Bytes
wire_packet t id os = msg_code t ∷ id_bytes id ++ wire_options os

abbrev pub host_pointers : List DhOption → List Ptr
host_pointers [] = []
host_pointers (o ∷ os) = some (host_option o) ∷ host_pointers os

le16-swap : (a b : ℕ) → a < 256 → b < 256 → le16 (htobe16 (a + 256 * b)) ≡ b ∷ a ∷ []
le16-swap a b ha hb = ground arith

-- Two bytes of a block, loaded, swapped and stored back.
swap_pair :
    (pre post : Bytes) (a b o : ℕ)
    → length pre ≡ o
    → a < 256
    → b < 256
    → (load16 (pre ++ a ∷ b ∷ post) o >>= λ v. store16 (pre ++ a ∷ b ∷ post) o (htobe16 v))
      ≡ done (pre ++ b ∷ a ∷ post)
swap_pair pre post a b o h ha hb =
    rw (load16-append pre a b post o h, le16-swap a b ha hb)
      (write-append pre (a ∷ b ∷ []) (b ∷ a ∷ []) post o h refl)

-- `swap_header` swaps each pair of the four bytes.
pub swap_header-append :
    (pre post : Bytes) (a b c d o : ℕ)
    → length pre ≡ o
    → a < 256
    → b < 256
    → c < 256
    → d < 256
    → swap_header (pre ++ a ∷ b ∷ c ∷ d ∷ post) o ≡ done (pre ++ b ∷ a ∷ d ∷ c ∷ post)
unfolding swap_header
swap_header-append pre post a b c d o h ha hb hc hd =
    rw
      (
        load16-append pre a b (c ∷ d ∷ post) o h,
        le16-swap a b ha hb,
        write-append pre (a ∷ b ∷ []) (b ∷ a ∷ []) (c ∷ d ∷ post) o h refl,
      )
      (rw
        (append_assoc pre (b ∷ a ∷ []) (c ∷ d ∷ post), append_assoc pre (b ∷ a ∷ []) (d ∷ c ∷ post))
        at moved)
  where
    moved :
        (load16 ((pre ++ b ∷ a ∷ []) ++ c ∷ d ∷ post) (o + 2) >>= λ v.
        store16 ((pre ++ b ∷ a ∷ []) ++ c ∷ d ∷ post) (o + 2) (htobe16 v))
        ≡ done ((pre ++ b ∷ a ∷ []) ++ d ∷ c ∷ post)
    moved =
        swap_pair (pre ++ b ∷ a ∷ []) post c d (o + 2)
          (omega (arith, length-append pre (b ∷ a ∷ []))) hc hd

-- The header of an option, put in network order.
pub swap_header-host :
    (pre post : Bytes) (opt : DhOption) (o : ℕ)
    → IsOption opt
    → length pre ≡ o
    → swap_header (pre ++ (host_option opt ++ post)) o ≡ done (pre ++ (wire_option opt ++ post))
swap_header-host pre post opt o v h =
    swap_header-append pre (opt.bytes ++ post) _ _ _ _ o h (omega arith) (omega arith) (omega arith)
      (omega arith)

pub swap_header-wire :
    (pre post : Bytes) (opt : DhOption) (o : ℕ)
    → IsOption opt
    → length pre ≡ o
    → swap_header (pre ++ (wire_option opt ++ post)) o ≡ done (pre ++ (host_option opt ++ post))
swap_header-wire pre post opt o v h =
    swap_header-append pre (opt.bytes ++ post) _ _ _ _ o h (omega arith) (omega arith) (omega arith)
      (omega arith)

pub packet_length_lem :
    (os : List DhOption) (total : ℕ)
    → All IsOption os
    → total + length (wire_options os) < 2 ^ 64
    → packet_length (host_pointers os) total ≡ done (total + length (wire_options os))
unfolding packet_length
packet_length_lem [] total v h = ap done (omega arith)
packet_length_lem (o ∷ os) total (v, vs) h =
    let grow : length (wire_options (o ∷ os)) ≡ 4 + length o.bytes + length (wire_options os) =
      omega (arith, length-append (wire_option o) (wire_options os)) in
    let fits : add64 total (length o.bytes + 4) ≡ total + (length o.bytes + 4) = omega arith in
    rw
      (
        halves16 _ v.length_fits,
        fits,
        packet_length_lem os (total + (length o.bytes + 4)) vs (omega arith),
      )
      (ap done (omega arith))

copy_options_lem :
    (os : List DhOption) (pre rest : Bytes) (offset : ℕ)
    → All IsOption os
    → length pre ≡ 4 + offset
    → length rest ≡ length (wire_options os)
    → offset + length rest < 2 ^ 64
    → copy_options (host_pointers os) (pre ++ rest) offset ≡ done (pre ++ wire_options os)
unfolding copy_options
copy_options_lem [] pre [] offset v hp hr hl = refl
copy_options_lem [] pre (x ∷ rest) offset v hp hr hl = absurd (omega arith)
copy_options_lem (o ∷ os) pre rest offset (v, vs) hp hr hl =
    let k = length o.bytes + 4 in
    let post = drop k rest in
    let all = append_assoc pre (wire_option o) in
    let size : length rest ≡ 4 + length o.bytes + length (wire_options os) =
      omega (arith, length-append (wire_option o) (wire_options os)) in
    let ih =
      copy_options_lem os (pre ++ wire_option o) post (offset + k) vs
        (omega (arith, length-append pre (wire_option o))) (omega (arith, length-drop k rest))
        (omega (arith, length-drop k rest)) in
    let fits : add64 offset k ≡ offset + k = omega arith in
    rw
      (
        halves16 _ v.length_fits,
        peek_all (host_option o) k (omega arith),
        entries-append-drop k rest (omega arith),
        write-append pre (entries k rest) (host_option o) post (4 + offset) hp
            (omega (arith, length-entries k rest)),
        swap_header-host pre post o (4 + offset) v hp,
        fits,
      )
      (rw (all post, all (wire_options os)) at ih)

msg_code_byte : (t : MsgType) → msg_code t % 256 ≡ msg_code t
msg_code_byte MsgType.solicit = refl
msg_code_byte _ = refl

-- The length of a packet on the wire.
abbrev pub wire_length : List DhOption → ℕ
wire_length os = 4 + length (wire_options os)

-- If the allocation succeeds, `dh_createPacket` returns for any list of options that fit their
-- 16-bit fields the length of the packet and a block that holds exactly it: message type,
-- transaction identifier, and the options in order with code and length in network order.
pub create_packet_lem :
    (m : Malloc) (t : MsgType) (id : TransactionId) (os : List DhOption) {b : Bytes}
    → All IsOption os
    → wire_length os < 2 ^ 64
    → m.alloc (wire_length os) ≡ some b
    → create_packet m t id (host_pointers os) ≡ done (wire_length os, some (wire_packet t id os))
unfolding create_packet
create_packet_lem m t id os {b} v h e =
    let split = entries-append-drop 4 b (omega (arith, m.length-alloc _ e)) in
    let size : length (drop 4 b) ≡ length (wire_options os) =
      omega (arith, length-drop 4 b, m.length-alloc _ e) in
    rw (
      packet_length_lem os 4 v h,
      e,
      split,
      msg_code_byte t,
      copy_options_lem os (msg_code t ∷ id_bytes id) (drop 4 b) 0 v refl size (omega arith),
    )
