-- ===== src/Daemon/Lease/Announced.antt =====
-- A round of the DHCP thread and the announcement that follows it.
use pdrad.Prelude.{
  ℕ, ◌+◌, ◌^◌, ◌≤◌, ◌<◌, ◌≡◌, ap, ap₂, sym, ◌∙◌, List, ◌∷◌, ◌++◌, Option, some, Bool, true, false,
  arith, length, All,
}
use pdrad.Memory.{Bytes, done, ◌>>=◌, Malloc, htobe32}
use pdrad.Memory.Laws.{le32-htobe32}
use pdrad.Dhcp.Packets.{MsgType, msg_code, TransactionId, Environment}
use pdrad.Dhcp.Packets.Wire.{DhOption, IsOption, wire_options, wire_packet, wire_length}
use pdrad.Dhcp.Parse.{wrong_type}
use pdrad.Daemon.Advertise.Wire.{advertisement}
use pdrad.Daemon.Request.Exchange.{Lacks, delegating}
use pdrad.Daemon.Lease.Rounds.{
  shared_bytes, lease_bytes, announce_round_lem, request_round_leased, request_round_unsent,
}
use pdrad.Daemon.Lease.{request_then_announce, announce_round}

module _ (node_fits : ℕ → Bool) (base : ℕ) (ms ms' : ℕ → Malloc) (env : Environment) {sec nsec : ℕ}
    {table block b2 b3 b4 b5 a0 a1 a2 a3 a4 : Bytes} (mac extra link_local dst : Bytes)
    (time : env.clock ≡ some (sec, nsec)) (et : (ms 0).alloc 32 ≡ some table)
    (eb : (ms 1).alloc 44 ≡ some block) (e2 : (ms 2).alloc 14 ≡ some b2)
    (e3 : (ms 3).alloc 6 ≡ some b3) (e4 : (ms 4).alloc 16 ≡ some b4) (e5 : (ms 5).alloc 4 ≡ some b5)
    (k0 : (ms' 0).alloc 32 ≡ some a0) (k1 : (ms' 1).alloc 16 ≡ some a1)
    (k2 : (ms' 2).alloc 8 ≡ some a2) (k3 : (ms' 3).alloc 8 ≡ some a3)
    (k4 : (ms' 4).alloc 80 ≡ some a4) (hm : length mac ≡ 6) (hl : length link_local ≡ 16)
    (hd : length dst ≡ 16) where
  -- If a reply of type ADVERTISE or REPLY arrives whose options fit their 16-bit fields, that fits
  -- the buffer, and whose first IA_PD starts with an IA Prefix option of 25 bytes with 32-bit
  -- lifetimes, the clock answers, no allocation fails, the hardware address has 6 bytes and the
  -- others 16, and the buffer ends 2 ^ 17 bytes at least before the end of the address space, then
  -- the round of `Thread_requestDhcpPrefix` takes that prefix, and the next round of
  -- `Thread_sendRouterAdv` sends to the destination, with hop limit 255, an advertisement of that
  -- prefix with its valid and preferred lifetime and the length 64.
  pub request_then_announce_leased :
      (t : MsgType) (id : TransactionId) (before after : List DhOption) (ia time1 time2 : ℕ)
      (preferred valid l : ℕ) (prefix more buffer shared : Bytes)
      → wrong_type (msg_code t) ≡ false
      → Lacks 25 before
      → All IsOption
          (delegating before after ia time1 time2 (lease_bytes preferred valid l prefix) more)
      → length prefix ≡ 16
      → valid < 2 ^ 32
      → preferred < 2 ^ 32
      → node_fits (4 + length (wire_options before)) ≡ true
      → wire_length
          (delegating before after ia time1 time2 (lease_bytes preferred valid l prefix) more)
        ≤ length buffer
      → base + length buffer + 2 ^ 17 ≤ 2 ^ 64
      → request_then_announce node_fits base ms env
          (record {
            sendto = true;
            recvfrom = some (
                wire_packet t id (
                  delegating before after ia time1 time2
                    (lease_bytes preferred valid l prefix)
                    more));
          })
          buffer
          shared
          ms'
          (mac ++ extra)
          link_local
          dst
        ≡ done (
            some (record {
              destination = dst;
              hop_limit = 255;
              payload = advertisement mac prefix 64 valid preferred;
            }))
  unfolding request_then_announce
  request_then_announce_leased t id before after ia time1 time2 preferred valid l prefix more buffer
        shared ht lacks v hp hv hr fits room space =
      rw (
        request_round_leased node_fits base ms env time et eb e2 e3 e4 e5 t id before after ia time1
            time2 preferred valid l prefix more buffer shared ht lacks v hp fits room space,
        announce_round_lem ms' mac extra link_local dst prefix 64 valid preferred hm hl hd hp hv hr
            k0 k1 k2 k3 k4,
      )

  -- If `sendto` fails, the clock answers and no allocation fails, the hardware address has 6 bytes
  -- and the prefix and the others 16, then the round of `Thread_requestDhcpPrefix` keeps the
  -- prefix but swaps the bytes of both lifetimes, which were in host order, once more, and the
  -- next round of `Thread_sendRouterAdv` announces the swapped lifetimes.
  pub request_then_announce_unsent :
      (recvfrom : Option Bytes) (preferred valid l : ℕ) (prefix buffer : Bytes)
      → length prefix ≡ 16
      → request_then_announce node_fits base ms env
          (record { sendto = false; recvfrom = recvfrom })
          buffer
          (shared_bytes preferred valid l prefix)
          ms'
          (mac ++ extra)
          link_local
          dst
        ≡ done (
            some (record {
              destination = dst;
              hop_limit = 255;
              payload = advertisement mac prefix 64 (htobe32 valid) (htobe32 preferred);
            }))
  unfolding request_then_announce
  request_then_announce_unsent recvfrom preferred valid l prefix buffer hp =
      let swapped : lease_bytes preferred valid 64 prefix
          ≡ shared_bytes (htobe32 preferred) (htobe32 valid) 64 prefix =
        ap₂ (λ p v. p ++ v ++ 64 ∷ prefix) (sym (le32-htobe32 preferred))
          (sym (le32-htobe32 valid)) in
      rw
        (request_round_unsent node_fits base ms env time et eb e2 e3 e4 e5 recvfrom preferred valid
          l prefix buffer)
        (ap (λ r. r >>= λ message. done (some message))
          (ap (announce_round ms' (mac ++ extra) link_local dst) swapped
            ∙ announce_round_lem ms' mac extra link_local dst prefix 64 (htobe32 valid)
                (htobe32 preferred) hm hl hd hp (omega arith) (omega arith) k0 k1 k2 k3 k4))
