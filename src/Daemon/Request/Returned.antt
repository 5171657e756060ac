-- ===== src/Daemon/Request/Returned.antt =====
-- Whatever the kernel, the network and the allocations answer: the prefix that a request gives.
use pdrad.Prelude.{ℕ, ◌+◌, ◌≡◌, Bool, Option, none, some, length, [], ◌∷◌}
use pdrad.Memory.{Bytes, Ptr, Malloc, read, load8, deref}
use pdrad.Memory.Ensures.{Ensures, returns, Ensures-if, Ensures->>=, Ensures->>=_of, length-read}
use pdrad.Dhcp.Options.{
  create_option_client_identifier_en, create_option_elapsed_time, create_option_ia_pd,
  create_option_rapid_commit,
}
use pdrad.Dhcp.Packets.{Environment, create_customized_solicit_packet}
use pdrad.Dhcp.Parse.{parse_options}
use pdrad.Daemon.Request.{
  Network, Outcome, received_buffer, received_length, print_memory_hex, first_ia_pd, is_null,
  client_enterprise, client_identifier, client_ia_id, receive_reply, exchange,
  request_and_receive_dhcp,
}

abbrev pub IsLeased : Outcome → Type 0
IsLeased Outcome.exited = Unit
IsLeased (Outcome.returned code sent buffer none) = Unit
IsLeased (Outcome.returned code sent buffer (some prefix)) = length prefix ≡ 25

abbrev Whole : Bytes × Bytes → Type 0
Whole r = length r.1 ≡ 25

module _ (node_fits : ℕ → Bool) (base : ℕ) where
  receive_reply-Whole :
      (buffer : Bytes) (recvfrom : Option Bytes)
      → Ensures Whole (receive_reply node_fits base buffer recvfrom)
  unfolding receive_reply
  receive_reply-Whole buffer recvfrom =
      let size = received_length recvfrom in
      Ensures->>= (received_buffer buffer recvfrom) λ b.
        Ensures->>= (print_memory_hex (some b) size) λ s. Ensures->>= (load8 b 0) λ t.
          Ensures->>= (load8 b 1) λ x. Ensures->>= (load8 b 2) λ y. Ensures->>= (load8 b 3) λ z.
            Ensures->>= (parse_options node_fits base size b) λ p.
              Ensures->>= (first_ia_pd p.1.ia_pd_list)
                λ pd. Ensures->>=_of (length-read p.0 (pd + 4 + 12 + 4) 25) λ d h. returns h

  exchange-IsLeased :
      (net : Network) (buffer : Bytes) (n : ℕ) (pkt : Ptr)
      → Ensures IsLeased (exchange node_fits base net buffer n pkt)
  unfolding exchange
  exchange-IsLeased net buffer n pkt = Ensures->>= (print_memory_hex pkt n) λ s.
      Ensures->>= (deref pkt) λ p. Ensures->>= (read p 0 n) λ d.
        Ensures-if net.sendto
          (Ensures->>=_of (receive_reply-Whole buffer net.recvfrom) λ r h. returns h) (returns tt)

  pub request-IsLeased :
      (ms : ℕ → Malloc) (env : Environment) (net : Network) (buffer : Bytes)
      → Ensures IsLeased (request_and_receive_dhcp node_fits base ms env net buffer)
  unfolding request_and_receive_dhcp
  request-IsLeased ms env net buffer =
      Ensures->>= (create_option_client_identifier_en (ms 2) client_enterprise client_identifier 4)
        λ c. Ensures-if (is_null c) (returns tt) (
          Ensures->>= (create_option_elapsed_time (ms 3) 0) λ e.
            Ensures-if (is_null e) (returns tt) (
              Ensures->>= (create_option_ia_pd (ms 4) client_ia_id none 0) λ i.
                Ensures-if (is_null i) (returns tt) (
                  Ensures->>= (create_option_rapid_commit (ms 5)) λ r.
                    Ensures-if (is_null r) (returns tt) (
                      Ensures->>= (create_customized_solicit_packet ms env none c e i 1 (r ∷ []))
                        λ w. exchange-IsLeased net buffer w.0 w.1))))
