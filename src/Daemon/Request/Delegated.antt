-- ===== src/Daemon/Request/Delegated.antt =====
-- A request that is answered with a lease.
use pdrad.Prelude.{
  ℕ, ◌+◌, ◌^◌, ◌≤◌, ◌≡◌, ◌∙◌, List, ◌++◌, drop, Option, none, some, Bool, true, false, length, All,
}
use pdrad.Memory.{Bytes, Run, done, Malloc}
use pdrad.Dhcp.Packets.{MsgType, msg_code, TransactionId, Environment}
use pdrad.Dhcp.Packets.Wire.{DhOption, IsOption, wire_options, wire_packet, wire_length}
use pdrad.Dhcp.Parse.{wrong_type}
use pdrad.Daemon.Request.{Network, Outcome, request_and_receive_dhcp}
use pdrad.Memory.Supply.{Plentiful}
use pdrad.Daemon.Request.Exchange.{Lacks, delegating, receive_reply_lem}
use pdrad.Dhcp.Packets.Solicit.{drawn_id}
use pdrad.Dhcp.Parse.RoundTrip.{host_packet}
use pdrad.Daemon.Request.Sent.{solicit, request_and_receive_dhcp_lem}

-- The clock answers, no allocation fails, `sendto` succeeds, and a well-formed ADVERTISE or REPLY
-- arrives, that fits the buffer and whose first IA_PD starts with the lease.
pub record Delegates (lease : Bytes) (node_fits : ℕ → Bool) (base : ℕ) (ms : ℕ → Malloc)
    (env : Environment) (net : Network) (buffer : Bytes) : Type 0 where
  pub sec : ℕ
  pub nsec : ℕ
  pub table : Bytes
  pub block : Bytes
  pub client_id : Bytes
  pub elapsed : Bytes
  pub ia_pd : Bytes
  pub rapid : Bytes
  pub time : env.clock ≡ some (sec, nsec)
  pub table_made : (ms 0).alloc 32 ≡ some table
  pub block_made : (ms 1).alloc 44 ≡ some block
  pub client_id_made : (ms 2).alloc 14 ≡ some client_id
  pub elapsed_made : (ms 3).alloc 6 ≡ some elapsed
  pub ia_pd_made : (ms 4).alloc 16 ≡ some ia_pd
  pub rapid_made : (ms 5).alloc 4 ≡ some rapid
  pub type : MsgType
  pub id : TransactionId
  pub before : List DhOption
  pub after : List DhOption
  pub ia : ℕ
  pub time1 : ℕ
  pub time2 : ℕ
  pub more : Bytes
  pub sends : net.sendto ≡ true
  pub receives :
      net.recvfrom ≡ some (wire_packet type id (delegating before after ia time1 time2 lease more))
  pub reply : wrong_type (msg_code type) ≡ false
  pub lacks : Lacks 25 before
  pub options : All IsOption (delegating before after ia time1 time2 lease more)
  pub fits : node_fits (4 + length (wire_options before)) ≡ true
  pub room : wire_length (delegating before after ia time1 time2 lease more) ≤ length buffer
  pub space : base + length buffer + 2 ^ 17 ≤ 2 ^ 64

-- The clock answers, no allocation fails, and `sendto` does.
pub record Unsent (ms : ℕ → Malloc) (env : Environment) (net : Network) : Type 0 where
  pub sec : ℕ
  pub nsec : ℕ
  pub time : env.clock ≡ some (sec, nsec)
  pub has : Plentiful ms
  pub fails : net.sendto ≡ false

pub Unsent-returned :
    (node_fits : ℕ → Bool) (base : ℕ) (ms : ℕ → Malloc) (env : Environment) (net : Network)
    (buffer : Bytes)
    → Unsent ms env net
    → (o : Outcome) × (request_and_receive_dhcp node_fits base ms env net buffer ≡ done o)
Unsent-returned node_fits base ms env net buffer v = (
  Outcome.returned 1 (solicit (drawn_id env v.sec v.nsec)) buffer none,
  request_and_receive_dhcp_lem node_fits base ms env net buffer v.time (v.has 0 32).1 (v.has 1 44).1
        (v.has 2 14).1 (v.has 3 6).1 (v.has 4 16).1 (v.has 5 4).1
      ∙ (rw v.fails),
)

module _ {lease : Bytes} {node_fits : ℕ → Bool} {base : ℕ} {ms : ℕ → Malloc} {env : Environment}
    {net : Network} {buffer : Bytes} (v : Delegates lease node_fits base ms env net buffer) where
  same_outcome :
      {m : Run Outcome} {c c' : ℕ} {k k' b b' : Bytes} {x y : Option Bytes}
      → m ≡ done (Outcome.returned c k b x)
      → m ≡ done (Outcome.returned c' k' b' y)
      → y ≡ x
  same_outcome e h = cc

  pub Delegates-answered :
      length lease ≡ 25
      → request_and_receive_dhcp node_fits base ms env net buffer
        ≡ done (
            Outcome.returned 0
              (solicit (drawn_id env v.sec v.nsec))
              (host_packet v.type v.id
                  (delegating v.before v.after v.ia v.time1 v.time2 lease v.more)
                ++ drop
                    (wire_length (delegating v.before v.after v.ia v.time1 v.time2 lease v.more))
                    buffer)
              (some lease))
  Delegates-answered size =
      request_and_receive_dhcp_lem node_fits base ms env net buffer v.time v.table_made v.block_made
        v.client_id_made v.elapsed_made v.ia_pd_made v.rapid_made
      ∙ (rw (
        v.sends,
        v.receives,
        receive_reply_lem node_fits base v.type v.id v.before v.after v.ia v.time1 v.time2 lease
            v.more buffer v.reply v.lacks v.options size v.fits v.room v.space,
      ))

  pub Delegates-lease :
      {code : ℕ} {packet buffer' : Bytes} {given : Option Bytes}
      → length lease ≡ 25
      → request_and_receive_dhcp node_fits base ms env net buffer
        ≡ done (Outcome.returned code packet buffer' given)
      → given ≡ some lease
  Delegates-lease size e = same_outcome (Delegates-answered size) e
