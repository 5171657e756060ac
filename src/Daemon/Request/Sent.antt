-- ===== src/Daemon/Request/Sent.antt =====
-- The request that is sent.
use pdrad.Prelude.{ℕ, ◌≡◌, refl, [], ◌∷◌, ◌++◌, some, none, Bool, if◌then◌else◌, arith, length}
use pdrad.Memory.{Bytes, done, ◌>>=◌, Malloc, be16, be32, le32}
use pdrad.Memory.Laws.{peek_all}
use pdrad.Dhcp.Options.Layout.{
  create_option_client_identifier_en_lem, create_option_elapsed_time_lem, create_option_ia_pd_null,
  create_option_rapid_commit_lem,
}
use pdrad.Dhcp.Packets.{MsgType, TransactionId, Environment}
use pdrad.Dhcp.Packets.Wire.{option, wire_packet}
use pdrad.Dhcp.Packets.Solicit.{drawn_id, rapid_options, create_customized_solicit_packet_lem}
use pdrad.Daemon.Request.{
  Network, Outcome, client_enterprise, client_identifier, client_ia_id, exchange, receive_reply,
  request_and_receive_dhcp,
}
use pdrad.Daemon.Request.Exchange.{print_memory_hex_all}

-- The client's DUID-EN, and the Solicit that the daemon sends.
abbrev pub client_duid : Bytes
client_duid = be16 2 ++ be32 client_enterprise ++ client_identifier

abbrev pub solicit : TransactionId → Bytes
solicit id = wire_packet MsgType.solicit id (rapid_options client_duid 0 client_ia_id)

module _ (node_fits : ℕ → Bool) (base : ℕ) where
  exchange_lem :
      (net : Network) (buffer packet : Bytes)
      → exchange node_fits base net buffer (length packet) (some packet) ≡ (
          if net.sendto
          then (receive_reply node_fits base buffer net.recvfrom >>= λ r.
              done (Outcome.returned 0 packet r.0 (some r.1)))
          else done (Outcome.returned 1 packet buffer none))
  unfolding exchange
  exchange_lem net buffer packet =
      rw (print_memory_hex_all packet, peek_all packet (length packet) refl)

  -- If the clock answers and no allocation fails, `requestAndReceiveDhcp` gives to `sendto`
  -- exactly the Solicit with the client's DUID-EN, elapsed time 0, an empty IA_PD and Rapid
  -- Commit. If `sendto` fails it returns 1 with the caller's prefix left alone; else it is the
  -- receiving of the reply, and returns 0 with the prefix that this reads.
  pub request_and_receive_dhcp_lem :
      (ms : ℕ → Malloc) (env : Environment) (net : Network) (buffer : Bytes) {sec nsec : ℕ}
      {table block b2 b3 b4 b5 : Bytes}
      → env.clock ≡ some (sec, nsec)
      → (ms 0).alloc 32 ≡ some table
      → (ms 1).alloc 44 ≡ some block
      → (ms 2).alloc 14 ≡ some b2
      → (ms 3).alloc 6 ≡ some b3
      → (ms 4).alloc 16 ≡ some b4
      → (ms 5).alloc 4 ≡ some b5
      → request_and_receive_dhcp node_fits base ms env net buffer ≡ (
          if net.sendto
          then (receive_reply node_fits base buffer net.recvfrom >>= λ r.
              done (Outcome.returned 0 (solicit (drawn_id env sec nsec)) r.0 (some r.1)))
          else done (Outcome.returned 1 (solicit (drawn_id env sec nsec)) buffer none))
  unfolding request_and_receive_dhcp
  request_and_receive_dhcp_lem ms env net buffer {sec} {nsec} {table} {block} time et eb e2 e3 e4
        e5 =
      rw
        (
          create_option_client_identifier_en_lem (ms 2) client_enterprise 4 client_identifier []
              (omega arith) (omega arith) refl e2,
          create_option_elapsed_time_lem (ms 3) 0 e3,
          create_option_ia_pd_null (ms 4) client_ia_id 0 e4,
          create_option_rapid_commit_lem (ms 5) e5,
          create_customized_solicit_packet_lem ms env none (option 1 client_duid)
              (option 8 (be16 0)) (option 25 (be32 client_ia_id ++ le32 0 ++ le32 0))
              (option 14 [] ∷ []) (omega arith) (omega arith) (omega arith) time et eb,
        )
        (exchange_lem net buffer (solicit (drawn_id env sec nsec)))
