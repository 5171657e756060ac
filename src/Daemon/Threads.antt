-- ===== src/Daemon/Threads.antt =====
-- The threads of Src/test.c, interleaved in any order: `Thread_requestDhcpPrefix`,
-- `Thread_sendRouterAdv` and `Thread_listenRouterSolicit` over `_prefix`, its mutex and the flags that
-- cancel them, with `main` waiting for a prefix and the signal handler `handle`. A step is one access to
-- what they share, and a call of Src/utils.c is one step; what the kernel and the network answer is left
-- open.
pub mod Invariant
pub mod Rounds
pub mod Preserved
pub mod Holders
pub mod Assigned
pub mod Owner
pub mod Fit
pub mod Ready
pub mod Release
pub mod Progress
pub mod Source
pub mod Adverts
pub mod Static
pub mod Exact
pub mod Leased
mod Tests
use pdrad.Prelude.{
  ℕ, ◌≡◌, ◌≢◌, List, [], ◌∷◌, ◌++◌, Option, none, some, Bool, true, false, if◌then◌else◌, length,
}
use pdrad.Memory.{Bytes, done, Malloc, read, load8, load32}
use pdrad.Address.{all_nodes_multicast, htobe_inet6}
use pdrad.Dhcp.Packets.{Environment}
use pdrad.Interface.{
  Answer, Interface, no_address, get_link_local_address, get_hardware_address, dispose,
}
use pdrad.Interface.Sizes.{IsAddress}
use pdrad.Daemon.Start.{zeros_of}
use pdrad.Daemon.Advertise.{Message, send_router_adv}
use pdrad.Daemon.Listen.{buffer_size, receive_src_addr}
use pdrad.Daemon.Request.{Network, Outcome, request_and_receive_dhcp}
use pdrad.Daemon.Lease.{convert_preferred, convert_valid, set_length}

-- The two threads that announce: every 200 seconds, and on a Router Solicitation.
pub data Announcer : Type 0 where
  adv sol : Announcer

pub data Thread : Type 0 where
  requester : Thread
  announcer : Announcer → Thread

-- Where `Thread_requestDhcpPrefix` stands. Between `asking` and `settled` it holds the mutex.
pub data Requesting : Type 0 where
  asleep asking answered preferred_set valid_set settled ended : Requesting

-- What a round of an announcing thread has found before it locks: the hardware address, the
-- link-local address and the destination.
pub record Locals : Type 0 where
  pub hardware_addr : Bytes
  pub src_addr : Bytes
  pub dst_addr : Bytes

-- Where an announcing thread stands; `addressed` has the link-local address. From `locked` to `sent` it holds the mutex; `copied` has the copy
-- of the prefix.
pub data Announcing : Type 0 where
  unborn idle ended : Announcing
  addressed : Bytes → Announcing
  ready locked : Locals → Announcing
  copied : Locals → Bytes → Announcing
  sent : Announcing

-- `heard` is all that `recvfrom` has given `Thread_listenRouterSolicit`, `messages` all that was given to
-- `sendmsg`, each with the latest round first.
pub record System : Type 0 where
  pub mutex : Option Thread
  pub prefix : Bytes
  pub interface : Interface
  pub requesting : Requesting
  pub announcing : Announcer → Announcing
  pub cancelled : Thread → Bool
  pub messages : List Message
  pub heard : List (Option (Bytes × Bytes))

abbrev pub update : (Announcer → Announcing) → Announcer → Announcing → Announcer → Announcing
update f adv p adv = p
update f adv p sol = f sol
update f sol p adv = f adv
update f sol p sol = p

-- The prefix after `requestAndReceiveDhcp`.
abbrev pub received_prefix : Bytes → Option Bytes → Bytes
received_prefix prefix none = prefix
received_prefix prefix (some lease) = lease

-- The arrays and the structs that the addresses stand in have fixed sizes.
abbrev pub hardware_size : Announcer → ℕ
hardware_size adv = 8
hardware_size sol = 6

-- Where a round of each thread sends to, after what `recvfrom` gives in it: the thread that listens has
-- a new buffer in each round, of any content, and an address of zeros.
abbrev pub Destination : Announcer → List (Option (Bytes × Bytes)) → Bytes → Type 0
Destination adv packets dst = (packets ≡ []) × (htobe_inet6 all_nodes_multicast ≡ done dst)
Destination sol packets dst =
    (buffer : Bytes) × (length buffer ≡ buffer_size)
    × (receive_src_addr buffer (zeros_of 16) packets ≡ done (some dst))

-- The descriptors that the threads have open.
abbrev pub held : System → List ℕ
held s = s.interface.others

abbrev pub holding : List ℕ → System → System
holding hs s = record s { interface = record s.interface { others = hs } }

-- The signal handler: every flag is set, and `utils_Dispose` called.
abbrev pub handled : System → System
handled s = record s { cancelled = λ t. true; interface = (dispose s.interface).1 }

pub data Step (s : System) : System → Type 0 where
  -- `Thread_requestDhcpPrefix`
  lock_requester :
      s.requesting ≡ asleep
      → s.cancelled requester ≡ false
      → s.mutex ≡ none
      → Step s (record s { mutex = some requester; requesting = asking })
  request :
      (node_fits : ℕ → Bool) (base : ℕ) (ms : ℕ → Malloc) (env : Environment) (net : Network)
      (buffer : Bytes) {code : ℕ} {packet buffer' : Bytes} {lease : Option Bytes}
      → s.requesting ≡ asking
      → request_and_receive_dhcp node_fits base ms env net buffer
        ≡ done (Outcome.returned code packet buffer' lease)
      → Step s (record s { prefix = received_prefix s.prefix lease; requesting = answered })
  set_preferred :
      {p : Bytes}
      → s.requesting ≡ answered
      → convert_preferred s.prefix ≡ done p
      → Step s (record s { prefix = p; requesting = preferred_set })
  set_valid :
      {p : Bytes}
      → s.requesting ≡ preferred_set
      → convert_valid s.prefix ≡ done p
      → Step s (record s { prefix = p; requesting = valid_set })
  set_prefix_length :
      {p : Bytes}
      → s.requesting ≡ valid_set
      → set_length s.prefix ≡ done p
      → Step s (record s { prefix = p; requesting = settled })
  unlock_requester :
      s.requesting ≡ settled → Step s (record s { mutex = none; requesting = asleep })
  end_requester :
      s.requesting ≡ asleep
      → s.cancelled requester ≡ true
      → Step s (record s { requesting = Requesting.ended })
  -- `main` leaves its loop and creates the other two threads.
  launch :
      {l : ℕ}
      → s.announcing adv ≡ unborn
      → s.announcing sol ≡ unborn
      → load8 s.prefix 8 ≡ done l
      → l ≢ 0
      → Step s (record s { announcing = λ a. idle })
  -- `Thread_sendRouterAdv` and `Thread_listenRouterSolicit`
  query_address :
      (a : Announcer) (connect : Answer (Unit {0})) (getsockname : Answer Bytes)
      → s.announcing a ≡ idle
      → s.cancelled (announcer a) ≡ false
      → IsAddress getsockname
      → Step s (record s {
        interface = (get_link_local_address s.interface no_address connect getsockname).2;
        announcing =
            update s.announcing a
              (addressed (get_link_local_address s.interface no_address connect getsockname).1);
      })
  prepare :
      (a : Announcer) (ioctl : Answer Bytes) (packets : List (Option (Bytes × Bytes))) (dst : Bytes)
      {src hardware_addr : Bytes} {e : ℕ} {interface' : Interface}
      → s.announcing a ≡ addressed src
      → Destination a packets dst
      → length dst ≡ 16
      → get_hardware_address s.interface (zeros_of (hardware_size a)) ioctl
        ≡ done (e, hardware_addr, interface')
      → Step s (record s {
        interface = interface';
        announcing =
            update s.announcing a
              (ready (record { hardware_addr = hardware_addr; src_addr = src; dst_addr = dst }));
        heard = packets ++ s.heard;
      })
  lock_announcer :
      (a : Announcer) {l : Locals}
      → s.announcing a ≡ ready l
      → s.mutex ≡ none
      → Step s
          (record s { mutex = some (announcer a); announcing = update s.announcing a (locked l) })
  copy_prefix :
      (a : Announcer) {l : Locals} {p : Bytes}
      → s.announcing a ≡ locked l
      → read s.prefix 9 16 ≡ done p
      → Step s (record s { announcing = update s.announcing a (copied l p) })
  send :
      (a : Announcer) (ms : ℕ → Malloc) {l : Locals} {p : Bytes} {m : Message}
      {prefix_length valid preferred : ℕ}
      → s.announcing a ≡ copied l p
      → load8 s.prefix 8 ≡ done prefix_length
      → load32 s.prefix 4 ≡ done valid
      → load32 s.prefix 0 ≡ done preferred
      → send_router_adv ms l.hardware_addr l.src_addr l.dst_addr p prefix_length valid preferred
        ≡ done m
      → Step s (record s { announcing = update s.announcing a sent; messages = m ∷ s.messages })
  unlock_announcer :
      (a : Announcer)
      → s.announcing a ≡ sent
      → Step s (record s { mutex = none; announcing = update s.announcing a idle })
  end_announcer :
      (a : Announcer)
      → s.announcing a ≡ idle
      → s.cancelled (announcer a) ≡ true
      → Step s (record s { announcing = update s.announcing a Announcing.ended })
  -- A thread whose set-up fails sets its flag.
  raise :
      (flags : Thread → Bool)
      → ((t : Thread) → s.cancelled t ≡ true → flags t ≡ true)
      → Step s (record s { cancelled = flags })
  -- A thread opens or closes sockets.
  hold : (hs : List ℕ) → Step s (holding hs s)
  -- `handle`
  signal : Step s (handled s)

pub data Reach (s : System) : System → Type 0 where
  here : Reach s s
  later : {t u : System} → Reach s t → Step t u → Reach s u

-- The threads as `main` starts them, with what `utils_Init` has left: with DHCP the announcing ones wait
-- for a prefix, with a static prefix there is no request.
abbrev pub start : Bool → Bytes → Interface → System
start use_dhcp prefix interface = record {
  mutex = none;
  prefix = prefix;
  interface = interface;
  requesting = if use_dhcp then asleep else Requesting.ended;
  announcing = λ a. if use_dhcp then unborn else idle;
  cancelled = λ t. false;
  messages = [];
  heard = [];
}
