-- ===== src/Daemon/Request/Fatal.antt =====
-- Answers that the request does not survive.
use pdrad.Prelude.{
  ℕ, ◌+◌, ◌-◌, ◌^◌, ◌≤◌, ◌<◌, ◌≡◌, ◌∙◌, List, ◌∷◌, some, none, Bool, true, false, length, All,
}
use pdrad.Memory.{Bytes, fault, Fault, Malloc}
use pdrad.Memory.Supply.{Plentiful}
use pdrad.Dhcp.Packets.{MsgType, msg_code, TransactionId, Environment}
use pdrad.Dhcp.Packets.Wire.{DhOption, IsOption, wire_packet, wire_length}
use pdrad.Dhcp.Parse.{wrong_type}
use pdrad.Daemon.Request.{Network, request_and_receive_dhcp}
use pdrad.Daemon.Request.Exchange.{Lacks, receive_reply_lacking, receive_reply_failed}
use pdrad.Daemon.Request.Sent.{request_and_receive_dhcp_lem}

-- A well-formed ADVERTISE or REPLY that fits the buffer and has one option at least and no IA_PD, and a
-- `recvfrom` that returns -1.
pub data Fatal (base : ℕ) (buffer : Bytes) : Network → Fault → Type 0 where
  undelegated :
      (t : MsgType) (id : TransactionId) (o : DhOption) (os : List DhOption)
      → wrong_type (msg_code t) ≡ false
      → Lacks 25 (o ∷ os)
      → All IsOption (o ∷ os)
      → wire_length (o ∷ os) ≤ length buffer
      → base + length buffer + 2 ^ 17 ≤ 2 ^ 64
      → Fatal base buffer
          (record { sendto = true; recvfrom = some (wire_packet t id (o ∷ os)) })
          Fault.null_pointer
  unreceived :
      length buffer < 2 ^ 64 - 1
      → Fatal base buffer (record { sendto = true; recvfrom = none }) Fault.out_of_bounds

pub request-Fatal :
    (node_fits : ℕ → Bool) (base : ℕ) (ms : ℕ → Malloc) (env : Environment) (net : Network)
    (buffer : Bytes) {sec nsec : ℕ} {e : Fault}
    → env.clock ≡ some (sec, nsec)
    → Plentiful ms
    → Fatal base buffer net e
    → request_and_receive_dhcp node_fits base ms env net buffer ≡ fault e
request-Fatal node_fits base ms env net buffer time has
      (undelegated t id o os ht lacks v room space) =
    request_and_receive_dhcp_lem node_fits base ms env net buffer time (has 0 32).1 (has 1 44).1
      (has 2 14).1 (has 3 6).1 (has 4 16).1 (has 5 4).1
    ∙ (rw (receive_reply_lacking node_fits base t id o os buffer ht lacks v room space))
request-Fatal node_fits base ms env net buffer time has (unreceived h) =
    request_and_receive_dhcp_lem node_fits base ms env net buffer time (has 0 32).1 (has 1 44).1
      (has 2 14).1 (has 3 6).1 (has 4 16).1 (has 5 4).1
    ∙ (rw (receive_reply_failed node_fits base buffer h))
