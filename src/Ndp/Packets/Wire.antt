-- ===== src/Ndp/Packets/Wire.antt =====
-- The bytes of the Router Advertisement.
use pdrad.Prelude.{
  ℕ, zero, suc, ◌+◌, ◌*◌, ◌%◌, ◌^◌, ◌<◌, ◌≡◌, ap, refl, List, [], ◌∷◌, ◌++◌, none, some, arith,
  length, All, append_assoc, length-append, entries, rest_of, get_or, drop, length-drop,
}
use pdrad.Memory.{
  Bytes, Ptr, Fault, fault, done, Malloc, le16, le32, be16, be32, htobe16, htobe32, add64, load8,
}
use pdrad.Memory.Laws.{entries-append-drop, length-entries, peek_all, write-append}
use pdrad.Ndp.Checksum.Total.{checksum_in}
use pdrad.Ndp.Options.Format.{IsNdpOption}
use pdrad.Ndp.Packets.{take_options, copy_options, create_ra_packet}

abbrev pub concat : List Bytes → Bytes
concat [] = []
concat (b ∷ bs) = b ++ concat bs

abbrev pub pointers : List Bytes → List Ptr
pointers [] = []
pointers (b ∷ bs) = some b ∷ pointers bs

-- The Router Advertisement of RFC 4861, section 4.2, with no checksum: hop limit, the flags O and
-- Prf = High, router lifetime, reachable time, retransmission timer, options.
abbrev pub router_advert : ℕ → ℕ → ℕ → ℕ → List Bytes → Bytes
router_advert hop_limit lifetime reachable retrans options =
    134 ∷ 0 ∷ 0 ∷ 0 ∷ hop_limit ∷ 0b0100_1000 ∷ be16 lifetime
    ++ be32 reachable
    ++ be32 retrans
    ++ concat options

load8-units : {b : Bytes} (v : IsNdpOption b) → load8 b 1 ≡ done v.units
load8-units v = rw (v.shape)

take_options_lem :
    (options : List Bytes) (n total : ℕ)
    → All IsNdpOption options
    → n ≡ length options
    → total + length (concat options) < 2 ^ 64
    → take_options n (pointers options) total ≡ done (options, total + length (concat options))
unfolding take_options
take_options_lem [] zero total v e h = ap (λ t. done ([], t)) (omega arith)
take_options_lem (b ∷ options) zero total v e h = absurd (omega arith)
take_options_lem [] (suc n) total v e h = absurd (omega arith)
take_options_lem (b ∷ options) (suc n) total (v, vs) e h =
    let grow = length-append b (concat options) in
    let fits : add64 total (v.units * 8) ≡ total + length b = omega (arith, grow, v.whole) in
    rw
      (
        load8-units v,
        fits,
        take_options_lem options n (total + length b) vs (omega arith) (omega (arith, grow)),
      )
      (ap (λ t. done (b ∷ options, t)) (omega (arith, grow)))

copy_options_lem :
    (options : List Bytes) (pre rest : Bytes) (at : ℕ)
    → All IsNdpOption options
    → length pre ≡ at
    → length rest ≡ length (concat options)
    → copy_options options (pre ++ rest) at ≡ done (pre ++ concat options)
unfolding copy_options
copy_options_lem [] pre [] at v hp hr = refl
copy_options_lem [] pre (x ∷ rest) at v hp hr = absurd (omega arith)
copy_options_lem (b ∷ options) pre rest at (v, vs) hp hr =
    let k = v.units * 8 in
    let post = drop k rest in
    let grow = length-append b (concat options) in
    let ih =
      copy_options_lem options (pre ++ b) post (at + k) vs
        (omega (arith, length-append pre b, v.whole))
        (omega (arith, length-drop k rest, grow, v.whole)) in
    rw
      (
        load8-units v,
        peek_all b k v.whole,
        entries-append-drop k rest (omega (arith, grow, v.whole)),
        write-append pre (entries k rest) b post at hp
            (omega (arith, length-entries k rest, v.whole)),
      )
      (rw (append_assoc pre b post, append_assoc pre b (concat options)) at ih)

pub create_ra_packet_null :
    (m : Malloc) (source dest : Bytes) (hop_limit lifetime reachable retrans : ℕ)
    (options : List Bytes)
    → All IsNdpOption options
    → 16 + length (concat options) < 2 ^ 64
    → m.alloc (16 + length (concat options)) ≡ none
    → create_ra_packet m source dest hop_limit lifetime reachable retrans
        (length options)
        (pointers options)
      ≡ fault Fault.null_pointer
unfolding create_ra_packet
create_ra_packet_null m source dest hop_limit lifetime reachable retrans options v fits e =
    rw (take_options_lem options (length options) 16 v refl fits, e)

-- For options whose second byte tells their length, addresses of 16 bytes and an allocation that
-- succeeds, `ndp_createRAPacket` returns the length of the advertisement and a block that holds
-- exactly it: type 134, code 0, hop limit, flags O and Prf = High, lifetime and timers in network
-- order, and the options in order. The checksum field is 0 whatever the addresses.
pub create_ra_packet_lem :
    (m : Malloc) (source dest : Bytes) (hop_limit lifetime reachable retrans : ℕ)
    (options : List Bytes) {b : Bytes}
    → length source ≡ 16
    → length dest ≡ 16
    → hop_limit < 256
    → All IsNdpOption options
    → 16 + length (concat options) < 2 ^ 64
    → m.alloc (16 + length (concat options)) ≡ some b
    → create_ra_packet m source dest hop_limit lifetime reachable retrans
        (length options)
        (pointers options)
      ≡ done (
        16 + length (concat options),
        some (router_advert hop_limit lifetime reachable retrans options),
      )
unfolding create_ra_packet
create_ra_packet_lem m source dest hop_limit lifetime reachable retrans options {b} hs hd hh v fits
      e =
    let total = 16 + length (concat options) in
    let split = entries-append-drop 16 b (omega (arith, m.length-alloc _ e)) in
    let size : length (drop 16 b) ≡ length (concat options) =
      omega (arith, length-drop 16 b, m.length-alloc _ e) in
    let c = get_or (rest_of (rest_of b)) 0 0 in
    let d = get_or (rest_of (rest_of (rest_of b))) 0 0 in
    let body : Bytes =
      hop_limit % 256 ∷ 72 ∷ le16 (htobe16 lifetime)
      ++ le32 (htobe32 reachable)
      ++ le32 (htobe32 retrans) in
    let summed =
      checksum_in source dest 134 0 c d total (body ++ concat options) hs hd (omega arith)
        (omega arith) in
    rw
      (
        take_options_lem options (length options) 16 v refl fits,
        e,
        split,
        copy_options_lem options (134 ∷ 0 ∷ c ∷ d ∷ body) (drop 16 b) 16 v refl size,
        summed.1,
      )
      (ground arith)
