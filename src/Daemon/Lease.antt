-- ===== src/Daemon/Lease.antt =====
-- The prefix that the threads of Src/test.c share (`_prefix`, a `dh_opt_IA_Prefix`): a round of
-- `Thread_requestDhcpPrefix`, which writes it, and one of `Thread_sendRouterAdv`, which announces it.
-- Each round holds the mutex. The interface's addresses and the destination are arguments.
pub mod Rounds
pub mod Announced
pub mod Shared
use pdrad.Prelude.{ℕ, Option, none, some, Bool}
use pdrad.Memory.{Bytes, Run, done, ◌>>=◌, Malloc, read, load8, load32, store8, store32, htobe32}
use pdrad.Dhcp.Packets.{Environment}
use pdrad.Daemon.Advertise.{Message, send_router_adv}
use pdrad.Daemon.Request.{Network, Outcome, request_and_receive_dhcp}

-- The assignments that follow the request: the lifetimes are put in host order, and the length is
-- set. The lifetimes stand at 0 and 4, the length at 8, the prefix at 9.
unfoldable pub convert_preferred : Bytes → Run Bytes
convert_preferred prefix = do preferred ← load32 prefix 0; store32 prefix 0 (htobe32 preferred)

unfoldable pub convert_valid : Bytes → Run Bytes
convert_valid prefix = do valid ← load32 prefix 4; store32 prefix 4 (htobe32 valid)

unfoldable pub set_length : Bytes → Run Bytes
set_length prefix = store8 prefix 8 64

-- All three, whatever became of the request.
unfoldable pub settle : Bytes → Run Bytes
settle prefix = do
  prefix ← convert_preferred prefix
  prefix ← convert_valid prefix
  set_length prefix

-- `none` where the request ended the program.
abbrev after_request : Bytes → Outcome → Run (Option (Bytes × Bytes))
after_request prefix Outcome.exited = done none
after_request prefix (Outcome.returned code sent buffer none) =
    settle prefix >>= λ p. done (some (buffer, p))
after_request prefix (Outcome.returned code sent buffer (some lease)) =
    settle lease >>= λ p. done (some (buffer, p))

-- The buffer and the prefix after a round.
unfoldable pub request_round :
    (ℕ → Bool)
    → ℕ
    → (ℕ → Malloc)
    → Environment
    → Network
    → Bytes
    → Bytes
    → Run (Option (Bytes × Bytes))
unfolding settle
request_round node_fits base ms env net buffer prefix =
    request_and_receive_dhcp node_fits base ms env net buffer >>= after_request prefix

-- The message of a round.
unfoldable pub announce_round : (ℕ → Malloc) → Bytes → Bytes → Bytes → Bytes → Run Message
unfolding send_router_adv
announce_round ms hardware_addr src_addr dst_addr shared = do
  prefix ← read shared 9 16
  prefix_length ← load8 shared 8
  valid ← load32 shared 4
  preferred ← load32 shared 0
  send_router_adv ms hardware_addr src_addr dst_addr prefix prefix_length valid preferred

-- The announcement that follows.
abbrev announce_next :
    (ℕ → Malloc) → Bytes → Bytes → Bytes → Option (Bytes × Bytes) → Run (Option Message)
announce_next ms hardware_addr src_addr dst_addr none = done none
announce_next ms hardware_addr src_addr dst_addr (some (buffer, shared)) =
    announce_round ms hardware_addr src_addr dst_addr shared >>= λ message. done (some message)

-- A round of the DHCP thread, then one of the advertising thread with allocations of its own.
unfoldable pub request_then_announce :
    (ℕ → Bool)
    → ℕ
    → (ℕ → Malloc)
    → Environment
    → Network
    → Bytes
    → Bytes
    → (ℕ → Malloc)
    → Bytes
    → Bytes
    → Bytes
    → Run (Option Message)
unfolding request_round announce_round
request_then_announce node_fits base ms env net buffer shared ms' hardware_addr src_addr dst_addr =
    request_round node_fits base ms env net buffer shared
    >>= announce_next ms' hardware_addr src_addr dst_addr
