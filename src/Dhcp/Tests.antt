-- ===== src/Dhcp/Tests.antt =====
-- The theorems on DHCPv6 at concrete inputs.
use pdrad.Prelude.{
  ℕ, ◌*◌, ◌≡◌, ◌≢◌, inl, inr, refl, [], ◌∷◌, ◌++◌, none, some, Bool, true, false, arith, not, ◌&&◌,
  ◌==◌,
}
use pdrad.Memory.{Bytes, done, fault, Fault, ◌>>=◌, Malloc, deref, sub64, be16, be32, le32}
use pdrad.Memory.Samples.{zeroed}
use pdrad.Dhcp.Options.{
  create_custom_opt_payload, create_option_ia_pd, create_option_iaprefix,
  create_option_client_identifier_en,
}
use pdrad.Dhcp.Options.Format.{DhOption, option, host_option}
use pdrad.Dhcp.Options.Layout.{
  create_custom_opt_payload_lem, create_option_ia_pd_null, create_option_ia_pd_overrun,
  create_option_iaprefix_overrun, create_option_client_identifier_en_lem,
}
use pdrad.Dhcp.Packets.{
  MsgType, TransactionId, Environment, minus_one, create_packet, create_customized_solicit_packet,
  create_rapid_solicit_packet,
}
use pdrad.Dhcp.Packets.Wire.{wire_packet, wire_length, host_pointers, create_packet_lem}
use pdrad.Dhcp.Packets.Solicit.{
  drawn_id, rapid_options, create_customized_solicit_packet_null,
  create_customized_solicit_packet_lem, create_rapid_solicit_packet_lem,
}
use pdrad.Dhcp.Parse.{parse_options, wrong_type}
use pdrad.Dhcp.Parse.Total.{parse_options-ne-endless}
use pdrad.Dhcp.Parse.Safe.{Keeps, parse_options_in}
use pdrad.Dhcp.Parse.RoundTrip.{host_packet, found, parse_options-create_packet}
use pdrad.Dhcp.Parse.Edges.{
  parse_options_stray, parse_options_truncated, parse_options_short, parse_options-success,
}

abbrev id : TransactionId
id = record { id_0 = 1; id_1 = 2; id_2 = 3 }

abbrev client : DhOption
client = option 1 (0 ∷ 2 ∷ 9 ∷ [])

abbrev prefixes : DhOption
prefixes = option 25 (1 ∷ 2 ∷ 3 ∷ 4 ∷ [])

abbrev always : ℕ → Bool
always at = true

abbrev zeroed_all : ℕ → Malloc
zeroed_all k = zeroed

abbrev noon : Environment
noon = record { clock = some (5, 3); random = λ seed. seed * 70000 }

parse_options-create_packet_example :
    (create_packet zeroed MsgType.reply id (host_pointers (client ∷ prefixes ∷ [])) >>= λ written.
    deref written.1 >>= λ packet. parse_options always 4096 written.0 (packet ++ 7 ∷ []))
    ≡ done (
      host_packet MsgType.reply id (client ∷ prefixes ∷ []) ++ 7 ∷ [],
      found always (client ∷ prefixes ∷ []),
    )
parse_options-create_packet_example =
    parse_options-create_packet zeroed always 4096 MsgType.reply id client (prefixes ∷ []) (7 ∷ [])
      refl (omega arith) (omega arith) refl

parse_options_in_example :
    Keeps
      (2 ∷ 0 ∷ 0 ∷ 0 ∷ 0 ∷ 1 ∷ 0 ∷ 9 ∷ 5 ∷ [])
      (parse_options always 4096 6 (2 ∷ 0 ∷ 0 ∷ 0 ∷ 0 ∷ 1 ∷ 0 ∷ 9 ∷ 5 ∷ []))
parse_options_in_example =
    parse_options_in always 4096 6 (omega arith) (2 ∷ 0 ∷ 0 ∷ 0 ∷ 0 ∷ 1 ∷ 0 ∷ 9 ∷ 5 ∷ [])
      (omega arith) (omega arith)

parse_options-ne-endless_example :
    parse_options always 4096 10 (7 ∷ 0 ∷ 0 ∷ 0 ∷ 0 ∷ 0 ∷ 0 ∷ 0 ∷ 0 ∷ 0 ∷ []) ≢ fault Fault.endless
parse_options-ne-endless_example =
    parse_options-ne-endless always 4096 10 (omega arith)
      (7 ∷ 0 ∷ 0 ∷ 0 ∷ 0 ∷ 0 ∷ 0 ∷ 0 ∷ 0 ∷ 0 ∷ [])

create_packet_lem_example :
    create_packet zeroed MsgType.advertise id (host_pointers (client ∷ []))
    ≡ done (wire_length (client ∷ []), some (wire_packet MsgType.advertise id (client ∷ [])))
create_packet_lem_example =
    create_packet_lem zeroed MsgType.advertise id (client ∷ []) (omega arith) (omega arith) refl

create_customized_solicit_packet_null_example :
    create_customized_solicit_packet zeroed_all noon (some (4 ∷ [])) (some []) none (some []) 0 []
    ≡ done (minus_one, some (4 ∷ []))
create_customized_solicit_packet_null_example =
    create_customized_solicit_packet_null zeroed_all noon (some (4 ∷ [])) (some []) none (some []) 0
      [] (inl (inr refl))

create_customized_solicit_packet_lem_example :
    create_customized_solicit_packet zeroed_all noon none
      (some (host_option client))
      (some (host_option (option 8 (0 ∷ 0 ∷ []))))
      (some (host_option prefixes))
      1
      (host_pointers (option 14 [] ∷ []))
    ≡ done (
      wire_length (client ∷ option 8 (0 ∷ 0 ∷ []) ∷ prefixes ∷ option 14 [] ∷ []),
      some (
          wire_packet MsgType.solicit
            (drawn_id noon 5 3)
            (client ∷ option 8 (0 ∷ 0 ∷ []) ∷ prefixes ∷ option 14 [] ∷ [])),
    )
create_customized_solicit_packet_lem_example =
    create_customized_solicit_packet_lem zeroed_all noon none client (option 8 (0 ∷ 0 ∷ []))
      prefixes (option 14 [] ∷ []) (omega arith) (omega arith) (omega arith) refl refl refl

create_rapid_solicit_packet_lem_example :
    create_rapid_solicit_packet zeroed_all noon none (some (5 ∷ 6 ∷ [])) 2 100 7
    ≡ done (
      wire_length (rapid_options (5 ∷ 6 ∷ []) 100 7),
      some (wire_packet MsgType.solicit (drawn_id noon 5 3) (rapid_options (5 ∷ 6 ∷ []) 100 7)),
    )
create_rapid_solicit_packet_lem_example =
    create_rapid_solicit_packet_lem zeroed_all noon none (5 ∷ 6 ∷ []) [] 100 7 (omega arith) refl
      refl refl refl refl refl refl

parse_options_stray_example :
    parse_options always 4096 13 (wire_packet MsgType.reply id (client ∷ []) ++ 0 ∷ 0 ∷ [])
    ≡ fault Fault.out_of_bounds
parse_options_stray_example =
    parse_options_stray always 4096 13 (omega arith) MsgType.reply id (client ∷ []) (0 ∷ 0 ∷ []) 2
      refl (omega arith) (omega arith) (omega arith) refl

parse_options_truncated_example :
    parse_options always 4096 13 (wire_packet MsgType.reply id (client ∷ [] ++ prefixes ∷ []) ++ [])
    ≡ done (
      host_packet MsgType.reply id (client ∷ [] ++ prefixes ∷ []) ++ [],
      found always (client ∷ [] ++ prefixes ∷ []),
    )
parse_options_truncated_example =
    parse_options_truncated always 4096 13 (omega arith) MsgType.reply id (client ∷ []) prefixes []
      2 refl (omega arith) (omega arith) (omega arith) (omega arith) refl

parse_options_short_example :
    parse_options always 4096 1 (wire_packet MsgType.reply id (client ∷ []) ++ 9 ∷ [])
    ≡ done (host_packet MsgType.reply id (client ∷ []) ++ 9 ∷ [], found always (client ∷ []))
parse_options_short_example =
    parse_options_short always 4096 1 (omega arith) MsgType.reply id client (9 ∷ []) refl
      (omega arith) (omega arith)

parse_options-success_example : false ≡ (not (sub64 9 4 == 0) && not (wrong_type 1))
unfolding parse_options
parse_options-success_example =
    parse_options-success always 4096 9 (1 ∷ 0 ∷ []) {t = 1} {pkt' = 1 ∷ 0 ∷ []}
      {result = record {
        success = false;
        client_identifier = none;
        server_identifier = none;
        ia_pd_list = [];
        elapsed_time = none;
      }}
      refl refl

create_custom_opt_payload_lem_example :
    create_custom_opt_payload zeroed 1 (some (5 ∷ 6 ∷ 7 ∷ [])) 2
    ≡ done (some (host_option (option 1 (5 ∷ 6 ∷ []))))
create_custom_opt_payload_lem_example =
    create_custom_opt_payload_lem zeroed 1 2 (5 ∷ 6 ∷ []) (7 ∷ []) (omega arith) (omega arith) refl
      refl

create_option_ia_pd_null_example :
    create_option_ia_pd zeroed 7 none 0
    ≡ done (some (host_option (option 25 (be32 7 ++ le32 0 ++ le32 0))))
create_option_ia_pd_null_example = create_option_ia_pd_null zeroed 7 0 refl

create_option_ia_pd_overrun_example :
    create_option_ia_pd zeroed 7 (some (1 ∷ 2 ∷ [])) 1 ≡ fault Fault.out_of_bounds
create_option_ia_pd_overrun_example =
    create_option_ia_pd_overrun zeroed 7 1 (1 ∷ []) (2 ∷ []) refl refl (omega arith)

abbrev address : Bytes
address = 0x20 ∷ 1 ∷ 0xd ∷ 0xb8 ∷ 0 ∷ 0 ∷ 0 ∷ 0 ∷ 0 ∷ 0 ∷ 0 ∷ 0 ∷ 0 ∷ 0 ∷ 0 ∷ 0 ∷ []

create_option_iaprefix_overrun_example :
    create_option_iaprefix zeroed 100 200 64 address ≡ fault Fault.out_of_bounds
create_option_iaprefix_overrun_example =
    create_option_iaprefix_overrun zeroed 100 200 64 address refl refl

create_option_client_identifier_en_lem_example :
    create_option_client_identifier_en zeroed 4107 (0x0d ∷ 0x00 ∷ 0x07 ∷ 0x21 ∷ []) 4
    ≡ done (some (host_option (option 1 (be16 2 ++ be32 4107 ++ 0x0d ∷ 0x00 ∷ 0x07 ∷ 0x21 ∷ []))))
create_option_client_identifier_en_lem_example =
    create_option_client_identifier_en_lem zeroed 4107 4 (0x0d ∷ 0x00 ∷ 0x07 ∷ 0x21 ∷ []) []
      (omega arith) (omega arith) refl refl
