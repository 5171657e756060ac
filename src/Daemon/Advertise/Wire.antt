-- ===== src/Daemon/Advertise/Wire.antt =====
-- The advertisement that the daemon sends.
use pdrad.Prelude.{
  ℕ, ◌+◌, ◌%◌, ◌≡◌, inl, refl, List, [], ◌∷◌, ◌++◌, some, arith, length, entries, All,
}
use pdrad.Memory.{Bytes, done, Malloc}
use pdrad.Memory.Laws.{entries_lem, peek_all}
use pdrad.Ndp.Options.Format.{
  link_layer_address, prefix_information, mtu_option, route_information, IsNdpOption,
}
use pdrad.Ndp.Options.Layout.{
  create_option_link_layer_address_core_lem, create_option_prefix_information_lem,
  create_option_mtu_lem,
}
use pdrad.Ndp.Options.Route.{create_option_route_information_lem}
use pdrad.Ndp.Packets.Wire.{concat, router_advert, create_ra_packet_lem}
use pdrad.Daemon.Advertise.{send_router_adv}

-- Link-layer address, prefix with the flags L and A, a route to the prefix's first 56 bits, and MTU.
abbrev pub advertised : Bytes → Bytes → ℕ → ℕ → ℕ → List Bytes
advertised mac prefix prefix_length valid preferred =
    link_layer_address 1 mac
    ∷ prefix_information (prefix_length % 256) 0xC0 valid preferred prefix
    ∷ route_information 2 56 0 valid (entries 8 prefix)
    ∷ mtu_option 1500
    ∷ []

abbrev pub advertisement : Bytes → Bytes → ℕ → ℕ → ℕ → Bytes
advertisement mac prefix prefix_length valid preferred =
    router_advert 64 1800 0 0 (advertised mac prefix prefix_length valid preferred)

lla-IsNdpOption : (mac : Bytes) → length mac ≡ 6 → IsNdpOption (link_layer_address 1 mac)
lla-IsNdpOption mac h = record {
  type = 1;
  units = 1;
  body = mac;
  shape = refl;
  small = omega arith;
  whole = omega arith;
}

prefix-IsNdpOption :
    (l f v p : ℕ) (prefix : Bytes)
    → length prefix ≡ 16
    → IsNdpOption (prefix_information l f v p prefix)
prefix-IsNdpOption l f v p prefix h = record {
  type = 3;
  units = 4;
  body = _;
  shape = refl;
  small = omega arith;
  whole = omega arith;
}

route-IsNdpOption :
    (v : ℕ) (prefix : Bytes) → IsNdpOption (route_information 2 56 0 v (entries 8 prefix))
route-IsNdpOption v prefix = record {
  type = 24;
  units = 2;
  body = _;
  shape = refl;
  small = omega arith;
  whole = refl;
}

mtu-IsNdpOption : IsNdpOption (mtu_option 1500)
mtu-IsNdpOption = record {
  type = 5;
  units = 1;
  body = _;
  shape = refl;
  small = omega arith;
  whole = refl;
}

pub advertised-IsNdpOption :
    (mac prefix : Bytes) (prefix_length valid preferred : ℕ)
    → length mac ≡ 6
    → length prefix ≡ 16
    → All IsNdpOption (advertised mac prefix prefix_length valid preferred)
advertised-IsNdpOption mac prefix prefix_length valid preferred hm hp = (
  lla-IsNdpOption mac hm,
  (prefix-IsNdpOption _ _ _ _ prefix hp, (route-IsNdpOption valid prefix, (mtu-IsNdpOption, tt))),
)

pub length-advertised :
    (mac prefix : Bytes) (prefix_length valid preferred : ℕ)
    → length mac ≡ 6
    → length prefix ≡ 16
    → 16 + length (concat (advertised mac prefix prefix_length valid preferred)) ≡ 80
length-advertised mac prefix prefix_length valid preferred hm hp =
    rw (entries_lem 6 mac hm, entries_lem 16 prefix hp)

-- For a hardware address of 6 bytes, whatever follows it, addresses and a prefix of 16 bytes and
-- allocations that succeed, `sendRouterAdv` gives to `sendmsg` the 80 bytes of an advertisement
-- with hop limit 64 and lifetime 1800 that has four options: link-layer address, prefix with the
-- flags L and A, the route to the prefix's first 56 bits, and MTU 1500; the packet's own hop limit
-- is 255.
pub send_router_adv_lem :
    (ms : ℕ → Malloc) (mac extra link_local dst prefix : Bytes) (prefix_length valid preferred : ℕ)
    {b0 b1 b2 b3 b4 : Bytes}
    → length mac ≡ 6
    → length link_local ≡ 16
    → length dst ≡ 16
    → length prefix ≡ 16
    → (ms 0).alloc 32 ≡ some b0
    → (ms 1).alloc 16 ≡ some b1
    → (ms 2).alloc 8 ≡ some b2
    → (ms 3).alloc 8 ≡ some b3
    → (ms 4).alloc 80 ≡ some b4
    → send_router_adv ms (mac ++ extra) link_local dst prefix prefix_length valid preferred
      ≡ done (record {
        destination = dst;
        hop_limit = 255;
        payload = advertisement mac prefix prefix_length valid preferred;
      })
unfolding send_router_adv
send_router_adv_lem ms mac extra link_local dst prefix prefix_length valid preferred {b4 = b4} hm hl
      hd hp e0 e1 e2 e3 e4 =
    rw (
      create_option_prefix_information_lem (ms 0) (prefix_length % 256) 0xC0 valid preferred prefix
          (omega arith) hp e0,
      create_option_route_information_lem (ms 1) 56 0 valid prefix (omega arith) (omega arith) hp
          e1,
      create_option_mtu_lem (ms 2) 1500 e2,
      create_option_link_layer_address_core_lem (ms 3) 1 mac extra (inl refl) hm e3,
      create_ra_packet_lem (ms 4) link_local dst 64 1800 0 0 options hl hd (omega arith)
          valid_options (omega (arith, total)) room,
      peek_all (router_advert 64 1800 0 0 options) (16 + length (concat options)) (omega arith),
    )
  where
    options : List Bytes
    options = advertised mac prefix prefix_length valid preferred

    total : 16 + length (concat options) ≡ 80
    total = length-advertised mac prefix prefix_length valid preferred hm hp

    room : (ms 4).alloc (16 + length (concat options)) ≡ some b4
    room = rw total e4

    valid_options : All IsNdpOption options
    valid_options = advertised-IsNdpOption mac prefix prefix_length valid preferred hm hp
