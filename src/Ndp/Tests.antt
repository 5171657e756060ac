-- ===== src/Ndp/Tests.antt =====
-- The theorems on Neighbour Discovery at concrete inputs.
use pdrad.Prelude.{
  ℕ, ◌+◌, ◌*◌, ◌%◌, ◌≤◌, ◌≡◌, ◌↔◌, inl, refl, [], ◌∷◌, ◌++◌, none, some, arith, entries, bit_and,
}
use pdrad.Memory.{Bytes, done, fault, Fault, be32}
use pdrad.Memory.Samples.{zeroed}
use pdrad.Ndp.Options.{
  create_option_link_layer_address_core, create_option_prefix_information, create_option_mtu,
  create_option_advertisement_interval_option, create_option_route_information,
}
use pdrad.Ndp.Options.Format.{
  link_layer_address, prefix_information, mtu_option, route_information, IsNdpOption,
}
use pdrad.Ndp.Options.Layout.{
  create_option_link_layer_address_core_lem, create_option_link_layer_address_core_null,
  create_option_prefix_information_lem, create_option_mtu_lem,
  create_option_advertisement_interval_option_lem,
}
use pdrad.Ndp.Options.Route.{
  create_option_route_information_lem, create_option_route_information_overrun,
}
use pdrad.Ndp.Checksum.{checksum, checksum_cal_core, pseudo_header}
use pdrad.Ndp.Checksum.Laws.{word_sum, Verifies, checksum_lem}
use pdrad.Ndp.Packets.{create_ra_packet}
use pdrad.Ndp.Packets.Wire.{pointers, router_advert, create_ra_packet_lem}

abbrev address : Bytes
address = 0xfe ∷ 0x80 ∷ 0 ∷ 0 ∷ 0 ∷ 0 ∷ 0 ∷ 0 ∷ 0 ∷ 0 ∷ 0 ∷ 0 ∷ 0 ∷ 0 ∷ 0 ∷ 1 ∷ []

abbrev mac : Bytes
mac = 2 ∷ 0 ∷ 0 ∷ 0 ∷ 0 ∷ 9 ∷ []

create_option_link_layer_address_core_lem_example :
    create_option_link_layer_address_core zeroed 1 (mac ++ 0 ∷ 0 ∷ [])
    ≡ done (some (link_layer_address 1 mac))
create_option_link_layer_address_core_lem_example =
    create_option_link_layer_address_core_lem zeroed 1 mac (0 ∷ 0 ∷ []) (inl refl) refl refl

create_option_link_layer_address_core_null_example :
    create_option_link_layer_address_core zeroed 3 mac ≡ done none
create_option_link_layer_address_core_null_example =
    create_option_link_layer_address_core_null zeroed 3 mac (omega arith) (omega arith)

create_option_prefix_information_lem_example :
    create_option_prefix_information zeroed 64 0xC1 100 50 address
    ≡ done (some (prefix_information 64 (bit_and 0xC1 0xC0 % 256) 100 50 address))
create_option_prefix_information_lem_example =
    create_option_prefix_information_lem zeroed 64 0xC1 100 50 address (omega arith) refl refl

create_option_mtu_lem_example : create_option_mtu zeroed 1500 ≡ done (some (mtu_option 1500))
create_option_mtu_lem_example = create_option_mtu_lem zeroed 1500 refl

create_option_advertisement_interval_option_lem_example :
    create_option_advertisement_interval_option zeroed 200 ≡ done (some (0 ∷ 0 ∷ 0 ∷ 0 ∷ be32 200))
create_option_advertisement_interval_option_lem_example =
    create_option_advertisement_interval_option_lem zeroed 200 refl

create_option_route_information_lem_example :
    create_option_route_information zeroed 56 0 1800 address
    ≡ done (some (route_information 2 56 0 1800 (entries 8 address)))
create_option_route_information_lem_example =
    create_option_route_information_lem zeroed 56 0 1800 address (omega arith) (omega arith) refl
      refl

create_option_route_information_overrun_example :
    create_option_route_information zeroed 128 0 1800 address ≡ fault Fault.out_of_bounds
create_option_route_information_overrun_example =
    create_option_route_information_overrun zeroed 128 0 1800 address (omega arith) refl refl

mtu_option-IsNdpOption : IsNdpOption (mtu_option 1500)
mtu_option-IsNdpOption = record {
  type = 5;
  units = 1;
  body = 0 ∷ 0 ∷ be32 1500;
  shape = refl;
  small = omega arith;
  whole = refl;
}

create_ra_packet_lem_example :
    create_ra_packet zeroed address address 64 1800 0 0 1 (pointers (mtu_option 1500 ∷ []))
    ≡ done (24, some (router_advert 64 1800 0 0 (mtu_option 1500 ∷ [])))
create_ra_packet_lem_example =
    create_ra_packet_lem zeroed address address 64 1800 0 0 (mtu_option 1500 ∷ []) refl refl
      (omega arith) (mtu_option-IsNdpOption, tt) (omega arith) refl

checksum_lem_example :
    (sum_header sum_body r : ℕ) × (checksum_cal_core (pseudo_header address address (2 * 2)) 40
      ≡ done (some sum_header))
    × (checksum_cal_core (134 ∷ 0 ∷ 0 ∷ 0 ∷ []) (2 * 2) ≡ done (some sum_body))
    × (checksum address address (some (134 ∷ 0 ∷ 5 ∷ 6 ∷ [])) (2 * 2)
        ≡ done (some r, some (134 ∷ 0 ∷ 0 ∷ 0 ∷ [])))
    × (r ≤ 65535)
    × (Verifies
          (word_sum (pseudo_header address address (2 * 2)) + word_sum (134 ∷ 0 ∷ 0 ∷ 0 ∷ []))
          r
        ↔ (sum_header + sum_body ≤ 65535))
checksum_lem_example =
    checksum_lem address address 134 0 5 6 2 [] refl refl (omega arith) (omega arith) (omega arith)
      refl
