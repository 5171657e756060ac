-- ===== src/Daemon/Advertise.antt =====
-- `sendRouterAdv` of Src/test.c. Sending is what the function returns: the message that it hands to
-- `sendmsg`, whose result is only logged.
pub mod Wire
pub mod Only
use pdrad.Prelude.{ℕ, ◌%◌, List, [], ◌∷◌, Option, none, some, bit_and, bit_or}
use pdrad.Memory.{Bytes, Ptr, Run, done, fault, ◌>>=◌, Malloc, deref, read}
use pdrad.Ndp.Options.{
  flag_l, flag_a, flag_r, create_option_prefix_information, create_option_route_information,
  create_option_mtu, create_option_source_link_layer_address,
}
use pdrad.Ndp.Packets.{create_ra_packet}

-- `message` with its control message for the hop limit and its one buffer.
pub record Message : Type 0 where
  pub destination : Bytes
  pub hop_limit : ℕ
  pub payload : Bytes

-- `prefix_length` is a `uint`, of which the option takes a byte. The allocations are numbered.
unfoldable pub send_router_adv :
    (ℕ → Malloc) → Bytes → Bytes → Bytes → Bytes → ℕ → ℕ → ℕ → Run Message
unfolding create_option_source_link_layer_address
send_router_adv ms mac_addr link_local_addr dst_addr prefix prefix_length valid_time prefer_time =
    do
      prefix_info ←
          create_option_prefix_information (ms 0) (prefix_length % 256)
            (bit_and (bit_or flag_l flag_a) flag_r) valid_time prefer_time prefix
      route_info ← create_option_route_information (ms 1) 56 0 valid_time prefix
      mtu ← create_option_mtu (ms 2) 1500
      link_address ← create_option_source_link_layer_address (ms 3) mac_addr
      (pkt_size, ra_packet) ←
          create_ra_packet (ms 4) link_local_addr dst_addr 64 1800 0 0 4
            (link_address ∷ prefix_info ∷ route_info ∷ mtu ∷ [])
      pkt ← deref ra_packet
      payload ← read pkt 0 pkt_size
      done (record { destination = dst_addr; hop_limit = 255; payload = payload })
