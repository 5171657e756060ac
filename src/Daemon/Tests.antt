-- ===== src/Daemon/Tests.antt =====
-- The theorems on the daemon at concrete inputs.
use pdrad.Prelude.{ℕ, ◌≡◌, refl, List, [], ◌∷◌, ◌++◌, some, none, Bool, true, false, arith}
use pdrad.Memory.{Bytes, done, Malloc, htobe32}
use pdrad.Memory.Samples.{zeroed, zeros}
use pdrad.Dhcp.Packets.{TransactionId, Environment}
use pdrad.Dhcp.Packets.Wire.{DhOption, option}
use pdrad.Dhcp.Packets.Solicit.{drawn_id}
use pdrad.Daemon.Advertise.{send_router_adv}
use pdrad.Daemon.Advertise.Wire.{advertisement, send_router_adv_lem}
use pdrad.Daemon.Listen.{receive_src_addr}
use pdrad.Daemon.Listen.First.{Icmp, delivered, receive_src_addr_lem}
use pdrad.Daemon.Listen.Heard.{IsHeard, receive_src_addr-IsHeard}
use pdrad.Daemon.Request.{Outcome, request_and_receive_dhcp}
use pdrad.Daemon.Request.Exchange.{delegating}
use pdrad.Daemon.Request.Sent.{solicit, request_and_receive_dhcp_lem}
use pdrad.Daemon.Lease.{request_then_announce}
use pdrad.Daemon.Lease.Rounds.{lease_bytes, shared_bytes}
use pdrad.Daemon.Lease.Announced.{request_then_announce_unsent}

abbrev mac : Bytes
mac = 2 ∷ 0 ∷ 0 ∷ 0 ∷ 0 ∷ 1 ∷ []

abbrev address : Bytes
address = 0x20 ∷ 1 ∷ 0xd ∷ 0xb8 ∷ 0 ∷ 0 ∷ 0 ∷ 0 ∷ 0 ∷ 0 ∷ 0 ∷ 0 ∷ 0 ∷ 0 ∷ 0 ∷ 0 ∷ []

abbrev zeroed_all : ℕ → Malloc
zeroed_all n = zeroed

abbrev always : ℕ → Bool
always n = true

abbrev env : Environment
env = record { clock = some (5, 3); random = λ n. 70000 }

abbrev id : TransactionId
id = record { id_0 = 1; id_1 = 2; id_2 = 3 }

abbrev server : DhOption
server = option 2 (7 ∷ [])

abbrev reply : List DhOption
reply = delegating (server ∷ []) [] 9 0 0 (lease_bytes 600 1200 56 address) []

send_router_adv_lem_example :
    send_router_adv zeroed_all (mac ++ 0 ∷ 0 ∷ []) address address address 64 1200 600
    ≡ done (record {
      destination = address;
      hop_limit = 255;
      payload = advertisement mac address 64 1200 600;
    })
send_router_adv_lem_example =
    send_router_adv_lem zeroed_all mac (0 ∷ 0 ∷ []) address address address 64 1200 600 refl refl
      refl refl refl refl refl refl refl

request_and_receive_dhcp_lem_example :
    request_and_receive_dhcp always 4096 zeroed_all env
      (record { sendto = false; recvfrom = none })
      (zeros 90)
    ≡ done (Outcome.returned 1 (solicit (drawn_id env 5 3)) (zeros 90) none)
request_and_receive_dhcp_lem_example =
    request_and_receive_dhcp_lem always 4096 zeroed_all env
      (record { sendto = false; recvfrom = none }) (zeros 90) refl refl refl refl refl refl refl

request_then_announce_unsent_example :
    request_then_announce always 4096 zeroed_all env
      (record { sendto = false; recvfrom = none })
      (zeros 90)
      (shared_bytes 600 1200 64 address)
      zeroed_all
      (mac ++ 0 ∷ 0 ∷ [])
      address
      address
    ≡ done (
        some (record {
          destination = address;
          hop_limit = 255;
          payload = advertisement mac address 64 (htobe32 1200) (htobe32 600);
        }))
request_then_announce_unsent_example =
    request_then_announce_unsent always 4096 zeroed_all zeroed_all env mac (0 ∷ 0 ∷ []) address
      address refl refl refl refl refl refl refl refl refl refl refl refl refl refl refl none 600
      1200 64 address (zeros 90) refl

abbrev arrived : List Icmp
arrived =
    record { type = 135; code = 0; rest = []; source = zeros 16 }
    ∷ record { type = 133; code = 0; rest = 0 ∷ 0 ∷ []; source = address }
    ∷ []

receive_src_addr-IsHeard_example : IsHeard address (delivered arrived)
receive_src_addr-IsHeard_example =
    receive_src_addr-IsHeard (zeros 1500) address (delivered arrived)
      (receive_src_addr_lem arrived (zeros 1500) (zeros 16) (omega arith))

receive_src_addr_lem_example :
    receive_src_addr (zeros 1500) (zeros 16) (
      delivered (
        record { type = 135; code = 0; rest = []; source = zeros 16 }
        ∷ record { type = 133; code = 0; rest = 0 ∷ 0 ∷ []; source = address }
        ∷ []))
    ≡ done (some address)
receive_src_addr_lem_example =
    receive_src_addr_lem
      (record { type = 135; code = 0; rest = []; source = zeros 16 }
        ∷ record { type = 133; code = 0; rest = 0 ∷ 0 ∷ []; source = address }
        ∷ [])
      (zeros 1500) (zeros 16) (omega arith)
