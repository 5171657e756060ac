-- ===== src/Dhcp/Packets/Solicit.antt =====
-- The Solicit packets.
use pdrad.Prelude.{
  ℕ, zero, suc, ◌+◌, ◌*◌, ◌%◌, ◌^◌, ◌≤◌, ◌<◌, ◌≡◌, ◌⊎◌, ap, refl, List, [], ◌∷◌, ◌++◌, none, some,
  true, bit_xor, leb, arith, length, length-append, All,
}
use pdrad.Memory.{Bytes, Ptr, done, Malloc, add32, be16, be32, le32}
use pdrad.Dhcp.Options.{option_clientid}
use pdrad.Dhcp.Options.Layout.{
  create_custom_opt_payload_lem, create_option_elapsed_time_lem, create_option_ia_pd_null,
  create_option_rapid_commit_lem,
}
use pdrad.Dhcp.Packets.{
  MsgType, TransactionId, trans_id_of, Environment, minus_one, fill_table, customized_options,
  create_customized_solicit_packet, create_rapid_solicit_packet,
}
use pdrad.Dhcp.Packets.Wire.{
  DhOption, IsOption, option, host_option, wire_options, wire_packet, wire_length, host_pointers,
  create_packet_lem,
}

-- The identifier that `srandom` and `random` give for a time.
abbrev pub drawn_id : Environment → ℕ → ℕ → TransactionId
drawn_id env sec nsec = trans_id_of (env.random (bit_xor nsec sec % 2 ^ 32))

-- The options of the packet that `dh_createRapidSolicitPacket` builds.
abbrev pub rapid_options : Bytes → ℕ → ℕ → List DhOption
rapid_options client elapsed_time ia_id =
    option 1 client
    ∷ option 8 (be16 elapsed_time)
    ∷ option 25 (be32 ia_id ++ le32 0 ++ le32 0)
    ∷ option 14 []
    ∷ []

length-host_pointers : (os : List DhOption) → length (host_pointers os) ≡ length os
length-host_pointers [] = refl
length-host_pointers (o ∷ os) = ap suc (length-host_pointers os)

fill_table_lem :
    (table : Bytes) (args : List Ptr) (i n : ℕ)
    → n ≡ length args
    → i + n + 3 < 2 ^ 32
    → 8 * (i + n + 3) ≤ length table
    → fill_table table i n args ≡ done args
unfolding fill_table
fill_table_lem table [] i zero h k l = refl
fill_table_lem table [] i (suc n) h k l = absurd (omega arith)
fill_table_lem table (p ∷ args) i zero h k l = absurd (omega arith)
fill_table_lem table (p ∷ args) i (suc n) h k l =
    let fits : leb (8 * add32 i 3 + 8) (length table) ≡ true = ground arith in
    rw (fits, fill_table_lem table args (i + 1) n (omega arith) (omega arith) (omega arith))

customized_options_lem :
    (table : Bytes) (args : List Ptr) (n : ℕ)
    → n ≡ length args
    → n + 3 < 2 ^ 32
    → 8 * (n + 3) ≤ length table
    → customized_options (some table) n args ≡ done args
unfolding customized_options
customized_options_lem table [] zero h k l = refl
customized_options_lem table (p ∷ args) zero h k l = absurd (omega arith)
customized_options_lem table args (suc n) h k l =
    fill_table_lem table args 0 (suc n) h (omega arith) (omega arith)

module _ (ms : ℕ → Malloc) (env : Environment) where
  -- If one of the three required options is NULL, `dh_CreateCustomizedSolicitPacket` returns
  -- `(size_t) -1` and leaves the caller's packet pointer as it was, whatever the clock and the
  -- further options.
  pub create_customized_solicit_packet_null :
      (old client elapsed ia_pd : Ptr) (n : ℕ) (args : List Ptr)
      → ((client ≡ none) ⊎ (elapsed ≡ none)) ⊎ (ia_pd ≡ none)
      → create_customized_solicit_packet ms env old client elapsed ia_pd n args
        ≡ done (minus_one, old)
  unfolding create_customized_solicit_packet
  create_customized_solicit_packet_null old client elapsed ia_pd n args h = ground arith

  -- For three required options and any further ones, their number small enough for a `uint`, a
  -- clock that answers and allocations that succeed, `dh_CreateCustomizedSolicitPacket` returns
  -- the SOLICIT that has the required options first and the further ones behind them, in order.
  pub create_customized_solicit_packet_lem :
      (old : Ptr) (client elapsed ia_pd : DhOption) (args : List DhOption) {sec nsec : ℕ}
      {table block : Bytes}
      → All IsOption (client ∷ elapsed ∷ ia_pd ∷ args)
      → length args + 3 < 2 ^ 32
      → wire_length (client ∷ elapsed ∷ ia_pd ∷ args) < 2 ^ 64
      → env.clock ≡ some (sec, nsec)
      → (ms 0).alloc (8 * (length args + 3)) ≡ some table
      → (ms 1).alloc (wire_length (client ∷ elapsed ∷ ia_pd ∷ args)) ≡ some block
      → create_customized_solicit_packet ms env old
          (some (host_option client))
          (some (host_option elapsed))
          (some (host_option ia_pd))
          (length args)
          (host_pointers args)
        ≡ done (
          wire_length (client ∷ elapsed ∷ ia_pd ∷ args),
          some (
              wire_packet MsgType.solicit
                (drawn_id env sec nsec)
                (client ∷ elapsed ∷ ia_pd ∷ args)),
        )
  unfolding create_customized_solicit_packet
  create_customized_solicit_packet_lem old client elapsed ia_pd args {sec} {nsec} {table} {block} v
        few fits time et eb =
      let n = length args in
      let count : add32 n 3 ≡ n + 3 = omega arith in
      rw (
        count,
        et,
        customized_options_lem table (host_pointers args) n
            (omega (arith, length-host_pointers args)) few
            (omega (arith, (ms 0).length-alloc _ et)),
        time,
        create_packet_lem (ms 1) MsgType.solicit (drawn_id env sec nsec)
            (client ∷ elapsed ∷ ia_pd ∷ args) v fits eb,
      )

  -- If the clock answers and no allocation fails, `dh_createRapidSolicitPacket` returns the length
  -- of a SOLICIT and a block that holds it: the transaction identifier drawn from the clock's
  -- seed, then, in network order, the client identifier as given (shorter than 65536 bytes), the
  -- elapsed time, an IA_PD with both times zero, and an empty Rapid Commit option.
  pub create_rapid_solicit_packet_lem :
      (old : Ptr) (client extra : Bytes) (elapsed_time ia_id : ℕ) {sec nsec : ℕ}
      {table block b2 b3 b4 b5 : Bytes}
      → length client < 65536
      → env.clock ≡ some (sec, nsec)
      → (ms 0).alloc 32 ≡ some table
      → (ms 1).alloc (wire_length (rapid_options client elapsed_time ia_id)) ≡ some block
      → (ms 2).alloc (length client + 4) ≡ some b2
      → (ms 3).alloc 6 ≡ some b3
      → (ms 4).alloc 16 ≡ some b4
      → (ms 5).alloc 4 ≡ some b5
      → create_rapid_solicit_packet ms env old
          (some (client ++ extra))
          (length client)
          elapsed_time
          ia_id
        ≡ done (
          wire_length (rapid_options client elapsed_time ia_id),
          some (
              wire_packet MsgType.solicit
                (drawn_id env sec nsec)
                (rapid_options client elapsed_time ia_id)),
        )
  unfolding create_rapid_solicit_packet
  create_rapid_solicit_packet_lem old client extra elapsed_time ia_id {sec} {nsec} {table} {block}
        {b2} {b3} {b4} {b5} short time et eb e2 e3 e4 e5 =
      rw
        (
          create_option_rapid_commit_lem (ms 5) e5,
          create_custom_opt_payload_lem (ms 2) option_clientid (length client) client extra
              (omega arith) (omega arith) refl e2,
          create_option_elapsed_time_lem (ms 3) elapsed_time e3,
          create_option_ia_pd_null (ms 4) ia_id 0 e4,
        )
        (create_customized_solicit_packet_lem old (option 1 client) (option 8 (be16 elapsed_time))
          (option 25 (be32 ia_id ++ le32 0 ++ le32 0)) (option 14 [] ∷ []) (omega arith)
          (omega arith)
          (omega (
            arith,
            length-append client (
                wire_options (
                  option 8 (be16 elapsed_time)
                  ∷ option 25 (be32 ia_id ++ le32 0 ++ le32 0)
                  ∷ option 14 []
                  ∷ [])),
          ))
          time et eb)
