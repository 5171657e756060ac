-- ===== src/Dhcp/Parse/RoundTrip.antt =====
-- `dh_parseOptions` on the packets that `dh_createPacket` builds.
use pdrad.Prelude.{
  ℕ, suc, ◌+◌, ◌^◌, ◌≤◌, ◌≡◌, refl, List, ◌∷◌, ◌++◌, none, some, Bool, true, false, ◌==◌, arith,
  length, length-append, All,
}
use pdrad.Memory.{Bytes, done, ◌>>=◌, Malloc, deref, sub64}
use pdrad.Dhcp.Options.{option_clientid, option_serverid, option_ia_pd}
use pdrad.Dhcp.Packets.{MsgType, msg_code, TransactionId, id_bytes, create_packet}
use pdrad.Dhcp.Packets.Wire.{
  DhOption, IsOption, wire_option, wire_options, wire_packet, wire_length, host_pointers,
  create_packet_lem,
}
use pdrad.Dhcp.Parse.{ParsedOptions, parse_content, parse_options, nothing_parsed, wrong_type}
use pdrad.Dhcp.Parse.Reads.{
  host_options, places, last_of, keep, scan, parse_loop-wire, scan-client_identifier,
  scan-server_identifier, scan-ia_pd_list, scan-elapsed_time,
}

-- The packet once its option headers are in host order.
abbrev pub host_packet : MsgType → TransactionId → List DhOption → Bytes
host_packet t id os = msg_code t ∷ id_bytes id ++ host_options os

-- What should be found: the last client and server identifier, and every IA_PD for which there was
-- memory, in order.
abbrev pub found : (ℕ → Bool) → List DhOption → ParsedOptions
found node_fits os = record {
  success = true;
  client_identifier = last_of none (places option_clientid 4 os);
  server_identifier = last_of none (places option_serverid 4 os);
  ia_pd_list = keep node_fits (places option_ia_pd 4 os);
  elapsed_time = none;
}

module _ (node_fits : ℕ → Bool) where
  pub scan-found :
      (os : List DhOption)
      → record (scan node_fits 4 os nothing_parsed) { success = true } ≡ found node_fits os
  scan-found os = λ i. record {
    success = true;
    client_identifier = scan-client_identifier node_fits 4 os nothing_parsed i;
    server_identifier = scan-server_identifier node_fits 4 os nothing_parsed i;
    ia_pd_list = scan-ia_pd_list node_fits 4 os nothing_parsed i;
    elapsed_time = scan-elapsed_time node_fits 4 os nothing_parsed i;
  }

module _ (node_fits : ℕ → Bool) (base size : ℕ) (room : base + size + 2 ^ 17 ≤ 2 ^ 64) where
  pub parse_options-wire_packet :
      (t : MsgType) (id : TransactionId) (o : DhOption) (os : List DhOption) (slack : Bytes)
      → wrong_type (msg_code t) ≡ false
      → All IsOption (o ∷ os)
      → size ≡ wire_length (o ∷ os)
      → parse_options node_fits base size (wire_packet t id (o ∷ os) ++ slack)
        ≡ done (host_packet t id (o ∷ os) ++ slack, found node_fits (o ∷ os))
  unfolding parse_options parse_content
  parse_options-wire_packet t id o os slack ht v hs =
      let left = length (wire_options (o ∷ os)) in
      let more : (sub64 size 4 == 0) ≡ false =
        ground (arith, length-append (wire_option o) (wire_options os)) in
      let unread : sub64 size 4 ≡ left = omega arith in
      let loop =
        parse_loop-wire node_fits base size room o os (suc size) (msg_code t ∷ id_bytes id) slack 4
          left nothing_parsed v refl refl (omega arith) (omega arith) in
      rw (more, ht, unread, loop, scan-found node_fits (o ∷ os))

-- What `dh_createPacket` writes as an ADVERTISE or a REPLY with one option at least, for options
-- that fit their 16-bit fields and a packet that fits the address space, `dh_parseOptions` reads,
-- whatever bytes follow the packet in the buffer: it succeeds, its client and server identifier
-- are the last such options and its IA_PD list has every such option for which there is memory, in
-- order, and every option header of the buffer is left in host order.
pub parse_options-create_packet :
    (m : Malloc) (node_fits : ℕ → Bool) (base : ℕ) (t : MsgType) (id : TransactionId) (o : DhOption)
    (os : List DhOption) (slack : Bytes) {b : Bytes}
    → wrong_type (msg_code t) ≡ false
    → All IsOption (o ∷ os)
    → base + wire_length (o ∷ os) + 2 ^ 17 ≤ 2 ^ 64
    → m.alloc (wire_length (o ∷ os)) ≡ some b
    → (create_packet m t id (host_pointers (o ∷ os)) >>= λ written.
        deref written.1 >>= λ packet. parse_options node_fits base written.0 (packet ++ slack))
      ≡ done (host_packet t id (o ∷ os) ++ slack, found node_fits (o ∷ os))
parse_options-create_packet m node_fits base t id o os slack ht v room e =
    rw (create_packet_lem m t id (o ∷ os) v (omega arith) e) (
      parse_options-wire_packet node_fits base (wire_length (o ∷ os)) room t id o os slack ht v
        refl)
