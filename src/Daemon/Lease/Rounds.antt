-- ===== src/Daemon/Lease/Rounds.antt =====
-- What becomes of a lease.
use pdrad.Prelude.{
  ℕ, ◌+◌, ◌-◌, ◌*◌, ◌%◌, ◌/◌, ◌^◌, ◌≤◌, ◌<◌, ◌≡◌, refl, ap, ap₂, ◌∙◌, List, ◌∷◌, ◌++◌, Option, some,
  none, Bool, true, false, arith, length, All, drop,
}
use pdrad.Memory.{Bytes, done, fault, Fault, ◌>>=◌, Malloc, be32, le32, htobe32}
use pdrad.Memory.Laws.{peek_all}
use pdrad.Dhcp.Packets.{MsgType, msg_code, TransactionId, Environment}
use pdrad.Dhcp.Packets.Wire.{DhOption, IsOption, wire_options, wire_packet, wire_length}
use pdrad.Dhcp.Parse.{wrong_type}
use pdrad.Dhcp.Parse.RoundTrip.{host_packet}
use pdrad.Daemon.Advertise.Wire.{advertisement, send_router_adv_lem}
use pdrad.Daemon.Request.Exchange.{
  Lacks, delegating, receive_reply_lem, receive_reply_lacking, receive_reply_failed,
}
use pdrad.Daemon.Request.Sent.{request_and_receive_dhcp_lem}
use pdrad.Daemon.Lease.{
  convert_preferred, convert_valid, set_length, settle, request_round, announce_round,
}

-- Four bytes as a load takes them.
abbrev word : ℕ → ℕ → ℕ → ℕ → ℕ
word a b c d = a + 256 * b + 65536 * (c + 256 * d)

pub word_swapped :
    (v : ℕ)
    → le32 (htobe32 (word (v / 16777216 % 256) (v / 65536 % 256) (v / 256 % 256) (v % 256)))
      ≡ le32 v
word_swapped v = ground arith

settle_bytes :
    (a b c d e f g h l : ℕ) (prefix : Bytes)
    → settle (a ∷ b ∷ c ∷ d ∷ e ∷ f ∷ g ∷ h ∷ l ∷ prefix)
      ≡ done (le32 (htobe32 (word a b c d)) ++ le32 (htobe32 (word e f g h)) ++ 64 ∷ prefix)
unfolding settle convert_preferred convert_valid set_length
settle_bytes a b c d e f g h l prefix = refl

settle_wire :
    (preferred valid l : ℕ) (prefix : Bytes)
    → settle (be32 preferred ++ be32 valid ++ l ∷ prefix)
      ≡ done (le32 preferred ++ le32 valid ++ 64 ∷ prefix)
settle_wire preferred valid l prefix =
    settle_bytes (preferred / 16777216 % 256) (preferred / 65536 % 256) (preferred / 256 % 256)
      (preferred % 256) (valid / 16777216 % 256) (valid / 65536 % 256) (valid / 256 % 256)
      (valid % 256) l prefix
    ∙ ap₂ (λ p v. done (p ++ v ++ 64 ∷ prefix)) (word_swapped preferred) (word_swapped valid)

word_bytes :
    (v : ℕ)
    → le32 (htobe32 (word (v % 256) (v / 256 % 256) (v / 65536 % 256) (v / 16777216 % 256)))
      ≡ be32 v
word_bytes v = ground arith

settle_host :
    (preferred valid l : ℕ) (prefix : Bytes)
    → settle (le32 preferred ++ le32 valid ++ l ∷ prefix)
      ≡ done (be32 preferred ++ be32 valid ++ 64 ∷ prefix)
settle_host preferred valid l prefix =
    settle_bytes (preferred % 256) (preferred / 256 % 256) (preferred / 65536 % 256)
      (preferred / 16777216 % 256) (valid % 256) (valid / 256 % 256) (valid / 65536 % 256)
      (valid / 16777216 % 256) l prefix
    ∙ ap₂ (λ p v. done (p ++ v ++ 64 ∷ prefix)) (word_bytes preferred) (word_bytes valid)

pub word_le :
    (v : ℕ) → v < 2 ^ 32 → word (v % 256) (v / 256 % 256) (v / 65536 % 256) (v / 16777216 % 256) ≡ v
word_le v h = omega arith

pub announce_round_lem :
    (ms : ℕ → Malloc) (mac extra link_local dst prefix : Bytes) (l valid preferred : ℕ)
    {b0 b1 b2 b3 b4 : Bytes}
    → length mac ≡ 6
    → length link_local ≡ 16
    → length dst ≡ 16
    → length prefix ≡ 16
    → valid < 2 ^ 32
    → preferred < 2 ^ 32
    → (ms 0).alloc 32 ≡ some b0
    → (ms 1).alloc 16 ≡ some b1
    → (ms 2).alloc 8 ≡ some b2
    → (ms 3).alloc 8 ≡ some b3
    → (ms 4).alloc 80 ≡ some b4
    → announce_round ms (mac ++ extra) link_local dst (le32 preferred ++ le32 valid ++ l ∷ prefix)
      ≡ done (record {
        destination = dst;
        hop_limit = 255;
        payload = advertisement mac prefix l valid preferred;
      })
unfolding announce_round
announce_round_lem ms mac extra link_local dst prefix l valid preferred hm hl hd hp hv hr e0 e1 e2
      e3 e4 =
    rw (peek_all prefix 16 hp, word_le valid hv, word_le preferred hr)
      (send_router_adv_lem ms mac extra link_local dst prefix l valid preferred hm hl hd hp e0 e1 e2
        e3 e4)

-- The bytes of an IA Prefix option's data on the wire.
abbrev pub lease_bytes : ℕ → ℕ → ℕ → Bytes → Bytes
lease_bytes preferred valid l prefix = be32 preferred ++ be32 valid ++ l ∷ prefix

-- The shared prefix in host order.
abbrev pub shared_bytes : ℕ → ℕ → ℕ → Bytes → Bytes
shared_bytes preferred valid l prefix = le32 preferred ++ le32 valid ++ l ∷ prefix

module _ (node_fits : ℕ → Bool) (base : ℕ) (ms : ℕ → Malloc) (env : Environment) {sec nsec : ℕ}
    {table block b2 b3 b4 b5 : Bytes} (time : env.clock ≡ some (sec, nsec))
    (et : (ms 0).alloc 32 ≡ some table) (eb : (ms 1).alloc 44 ≡ some block)
    (e2 : (ms 2).alloc 14 ≡ some b2) (e3 : (ms 3).alloc 6 ≡ some b3)
    (e4 : (ms 4).alloc 16 ≡ some b4) (e5 : (ms 5).alloc 4 ≡ some b5) where
  pub request_round_leased :
      (t : MsgType) (id : TransactionId) (before after : List DhOption) (ia time1 time2 : ℕ)
      (preferred valid l : ℕ) (prefix more buffer shared : Bytes)
      → wrong_type (msg_code t) ≡ false
      → Lacks 25 before
      → All IsOption
          (delegating before after ia time1 time2 (lease_bytes preferred valid l prefix) more)
      → length prefix ≡ 16
      → node_fits (4 + length (wire_options before)) ≡ true
      → wire_length
          (delegating before after ia time1 time2 (lease_bytes preferred valid l prefix) more)
        ≤ length buffer
      → base + length buffer + 2 ^ 17 ≤ 2 ^ 64
      → request_round node_fits base ms env
          (record {
            sendto = true;
            recvfrom = some (
                wire_packet t id (
                  delegating before after ia time1 time2
                    (lease_bytes preferred valid l prefix)
                    more));
          })
          buffer
          shared
        ≡ done (
            some (
              host_packet t id (
                    delegating before after ia time1 time2
                      (lease_bytes preferred valid l prefix)
                      more)
                  ++ drop
                      (wire_length (
                        delegating before after ia time1 time2
                          (lease_bytes preferred valid l prefix)
                          more))
                      buffer,
              shared_bytes preferred valid 64 prefix,
            ))
  unfolding request_round
  request_round_leased t id before after ia time1 time2 preferred valid l prefix more buffer shared
        ht lacks v hp fits room space =
      rw
        (
          request_and_receive_dhcp_lem node_fits base ms env _ buffer time et eb e2 e3 e4 e5,
          receive_reply_lem node_fits base t id before after ia time1 time2
              (lease_bytes preferred valid l prefix) more buffer ht lacks v (omega arith) fits room
              space,
        )
        (ap
          (λ m. m >>= λ p. done (
            some (
              host_packet t id (
                    delegating before after ia time1 time2 (lease_bytes preferred valid l prefix)
                      more)
                  ++ drop
                      (wire_length (
                        delegating before after ia time1 time2
                          (lease_bytes preferred valid l prefix) more))
                      buffer,
              p,
            )))
          (settle_wire preferred valid l prefix))

  pub request_round_unsent :
      (recvfrom : Option Bytes) (preferred valid l : ℕ) (prefix buffer : Bytes)
      → request_round node_fits base ms env
          (record { sendto = false; recvfrom = recvfrom })
          buffer
          (shared_bytes preferred valid l prefix)
        ≡ done (some (buffer, lease_bytes preferred valid 64 prefix))
  unfolding request_round
  request_round_unsent recvfrom preferred valid l prefix buffer =
      rw
        (request_and_receive_dhcp_lem node_fits base ms env
          (record { sendto = false; recvfrom = recvfrom }) buffer time et eb e2 e3 e4 e5)
        (ap (λ m. m >>= λ p. done (some (buffer, p))) (settle_host preferred valid l prefix))

  -- If the clock answers, no allocation fails, and a well-formed ADVERTISE or REPLY arrives that
  -- fits the buffer, which ends 2 ^ 17 bytes at least before the end of the address space, and has
  -- one option at least and no IA_PD, the round of `Thread_requestDhcpPrefix` goes through a NULL
  -- pointer.
  pub request_round_undelegated :
      (t : MsgType) (id : TransactionId) (o : DhOption) (os : List DhOption) (buffer shared : Bytes)
      → wrong_type (msg_code t) ≡ false
      → Lacks 25 (o ∷ os)
      → All IsOption (o ∷ os)
      → wire_length (o ∷ os) ≤ length buffer
      → base + length buffer + 2 ^ 17 ≤ 2 ^ 64
      → request_round node_fits base ms env
          (record { sendto = true; recvfrom = some (wire_packet t id (o ∷ os)) })
          buffer
          shared
        ≡ fault Fault.null_pointer
  unfolding request_round
  request_round_undelegated t id o os buffer shared ht lacks v room space = rw (
    request_and_receive_dhcp_lem node_fits base ms env
        (record { sendto = true; recvfrom = some (wire_packet t id (o ∷ os)) }) buffer time et eb e2
        e3 e4 e5,
    receive_reply_lacking node_fits base t id o os buffer ht lacks v room space,
  )

  -- If the clock answers, no allocation fails and `recvfrom` returns -1, the round of
  -- `Thread_requestDhcpPrefix` takes that for a length of 2 ^ 64 - 1 and reads past the end of
  -- every buffer that is shorter.
  pub request_round_unreceived :
      (buffer shared : Bytes)
      → length buffer < 2 ^ 64 - 1
      → request_round node_fits base ms env
          (record { sendto = true; recvfrom = none })
          buffer
          shared
        ≡ fault Fault.out_of_bounds
  unfolding request_round
  request_round_unreceived buffer shared h = rw (
    request_and_receive_dhcp_lem node_fits base ms env (record { sendto = true; recvfrom = none })
        buffer time et eb e2 e3 e4 e5,
    receive_reply_failed node_fits base buffer h,
  )
