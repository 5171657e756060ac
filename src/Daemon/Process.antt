-- ===== src/Daemon/Process.antt =====
-- The process of Src/test.c as a state: where `main` and each thread stand, what they share, the sockets
-- that are open, what a set-up makes of it, and what ends it with a fault.
use pdrad.Prelude.{ℕ, ◌≡◌, ◌⊎◌, List, [], ◌∷◌, ◌++◌, Option, none, some, Bool, true, false, length}
use pdrad.Memory.{Bytes, Ptr, done, fault, Fault, Malloc, load8, load32}
use pdrad.Interface.{Answer, among, remove, get_hardware_address}
use pdrad.Dhcp.Packets.{Environment}
use pdrad.Daemon.Start.{zeros_of}
use pdrad.Daemon.Advertise.{send_router_adv}
use pdrad.Daemon.Listen.{buffer_size, receive_src_addr}
use pdrad.Daemon.Request.{Network, request_and_receive_dhcp}
use pdrad.Daemon.Setup.{
  Shared, Setup, exits, returns_with, enters, setup_adv, setup_requester, setup_sol,
}
use pdrad.Daemon.Setup.Descriptors.{Fresh}
use pdrad.Daemon.Threads.{
  Announcer, adv, sol, Thread, requester, announcer, asking, addressed, Locals, copied,
  hardware_size, System, held, holding,
}

-- Where `main` stands: in the loop that waits for a prefix, in the one that waits for a flag, at the
-- end of the process, be it `return 0` or `exit`, or in a process that an access outside of the memory
-- has ended.
pub data Stage : Type 0 where
  waiting watching over crashed : Stage

-- The threads run.
abbrev pub IsGoing : Stage → Type 0
IsGoing waiting = Unit
IsGoing watching = Unit
IsGoing over = ⊥
IsGoing crashed = ⊥

-- Where a thread stands: not created, before its set-up, in its loop with these sockets, or returned.
pub data Place : Type 0 where
  absent created returned : Place
  looping : List ℕ → Place

pub record Program : Type 0 where
  pub system : System
  pub stage : Stage
  pub place : Thread → Place
  pub buffer : Bytes
  pub lan : Bytes
  pub wan : Ptr

abbrev pub put : (Thread → Place) → Thread → Place → Thread → Place
put f requester x requester = x
put f requester x (announcer a) = f (announcer a)
put f (announcer a) x requester = f requester
put f (announcer adv) x (announcer adv) = x
put f (announcer adv) x (announcer sol) = f (announcer sol)
put f (announcer sol) x (announcer adv) = f (announcer adv)
put f (announcer sol) x (announcer sol) = x

-- `main` creates the two threads that announce.
abbrev pub create_announcers : (Thread → Place) → Thread → Place
create_announcers f requester = f requester
create_announcers f (announcer a) = created

abbrev pub close_all : List ℕ → List ℕ → List ℕ
close_all [] xs = xs
close_all (h ∷ hs) xs = close_all hs (remove h xs)

-- What a set-up sees of the process, and the flags that it leaves.
abbrev pub shared : Program → Shared
shared p = record {
  opened = held p.system;
  adv_cancelled = p.system.cancelled (announcer adv);
  sol_cancelled = p.system.cancelled (announcer sol);
  requester_cancelled = p.system.cancelled requester;
}

abbrev pub flags_of : Shared → Thread → Bool
flags_of s requester = s.requester_cancelled
flags_of s (announcer adv) = s.adv_cancelled
flags_of s (announcer sol) = s.sol_cancelled

-- The process after the set-up of the thread `t`.
abbrev pub set_up : Program → Thread → Shared → Place → Program
set_up p t s x = record p {
  system = holding s.opened (record p.system { cancelled = flags_of s });
  place = put p.place t x;
}

abbrev pub after_requester : Program → Setup (ℕ × Bytes) → Program
after_requester p exits = record p { stage = over }
after_requester p (returns_with s) = set_up p requester s returned
after_requester p (enters s (h, b)) = record (set_up p requester s (looping (h ∷ []))) {
  buffer = b;
}

abbrev pub after_adv : Program → Setup ℕ → Program
after_adv p exits = record p { stage = over }
after_adv p (returns_with s) = set_up p (announcer adv) s returned
after_adv p (enters s h) = set_up p (announcer adv) s (looping (h ∷ []))

abbrev pub option_list : Option ℕ → List ℕ
option_list none = []
option_list (some h) = h ∷ []

abbrev pub after_sol : Program → Option ℕ → Setup ℕ → Program
after_sol p k exits = record p { stage = over }
after_sol p k (returns_with s) = set_up p (announcer sol) s returned
after_sol p k (enters s h) = set_up p (announcer sol) s (looping (h ∷ option_list k))

-- `socket` gives a descriptor that is not in use.
abbrev pub IsNew : Program → Option ℕ → Type 0
IsNew p none = Unit
IsNew p (some h) = Fresh h (held p.system ++ p.system.interface.opened)

abbrev pub opens : Option ℕ → Program → Program
opens h p = record p { system = holding (option_list h ++ held p.system) p.system }

-- A thread stands where its next access is a fault: in the request, in a query of the hardware address,
-- while it listens, in `sendRouterAdv`, or in its set-up. The other accesses of the loops are to the
-- 25 bytes of the prefix.
pub data Faulting (p : Program) (e : Fault) : Type 0 where
  in_request :
      (node_fits : ℕ → Bool) (base : ℕ) (ms : ℕ → Malloc) (env : Environment) (net : Network)
      {h : ℕ}
      → p.place requester ≡ looping (h ∷ [])
      → (among h (held p.system) ≡ true) ⊎ (net.sendto ≡ false)
      → p.system.requesting ≡ asking
      → request_and_receive_dhcp node_fits base ms env net p.buffer ≡ fault e
      → Faulting p e
  in_query :
      (a : Announcer) (ioctl : Answer Bytes) {hs : List ℕ} {src : Bytes}
      → p.place (announcer a) ≡ looping hs
      → p.system.announcing a ≡ addressed src
      → get_hardware_address p.system.interface (zeros_of (hardware_size a)) ioctl ≡ fault e
      → Faulting p e
  in_listen :
      (buffer : Bytes) (packets : List (Option (Bytes × Bytes))) {hs : List ℕ} {src : Bytes}
      → length buffer ≡ buffer_size
      → p.place (announcer sol) ≡ looping hs
      → p.system.announcing sol ≡ addressed src
      → receive_src_addr buffer (zeros_of 16) packets ≡ fault e
      → Faulting p e
  in_send :
      (a : Announcer) (ms : ℕ → Malloc) {hs : List ℕ} {l : Locals} {prefix : Bytes}
      {prefix_length valid preferred : ℕ}
      → p.place (announcer a) ≡ looping hs
      → p.system.announcing a ≡ copied l prefix
      → load8 p.system.prefix 8 ≡ done prefix_length
      → load32 p.system.prefix 4 ≡ done valid
      → load32 p.system.prefix 0 ≡ done preferred
      → send_router_adv ms l.hardware_addr l.src_addr l.dst_addr prefix prefix_length valid
          preferred
        ≡ fault e
      → Faulting p e
  in_requester_set_up :
      (socket : Option ℕ) (ms : ℕ → Malloc) (setsockopt bind : Answer (Unit {0})) (mtu : Answer ℕ)
      {name : Bytes}
      → p.place requester ≡ created
      → p.wan ≡ some name
      → IsNew p socket
      → setup_requester (shared p) name socket ms setsockopt bind mtu ≡ fault e
      → Faulting p e
  -- the name is NULL
  in_unnamed_set_up :
      (h : ℕ) → p.place requester ≡ created → p.wan ≡ none → IsNew p (some h) → Faulting p e
  in_adv_set_up :
      (socket : Option ℕ) (m : Malloc) (setsockopt : Answer (Unit {0}))
      → p.place (announcer adv) ≡ created
      → IsNew p socket
      → setup_adv (shared p) p.lan socket m setsockopt ≡ fault e
      → Faulting p e
  in_sol_set_up :
      (receiving sending : Option ℕ) (bind_receiving bind_sending join bind : Answer (Unit {0}))
      → p.place (announcer sol) ≡ created
      → IsNew p receiving
      → IsNew (opens receiving p) sending
      → setup_sol (shared p) p.lan receiving sending bind_receiving bind_sending join bind ≡ fault e
      → Faulting p e
