-- ===== src/Daemon/Program.antt =====
-- The process of Src/test.c: `main` after it has read the command line, and each thread from its
-- creation through its set-up and its loop to its end, with the sockets that they have open. The loops
-- are those of Daemon/Threads, the set-ups those of Daemon/Setup.
pub mod Kinds
pub mod Asked
pub mod Simulation
pub mod Stuck
pub mod Ending
pub mod Sending
pub mod Prepared
pub mod Stolen
pub mod Adverts
pub mod Leased
pub mod Faults
pub mod Killed
mod Tests
pub use pdrad.Daemon.Process.{
  Stage, IsGoing, Place, Program, put, create_announcers, close_all, shared, flags_of, set_up,
  after_requester, after_adv, option_list, after_sol, IsNew, opens, Faulting, waiting, watching,
  over, crashed, absent, created, returned, looping, in_request, in_query, in_listen, in_send,
  in_requester_set_up, in_unnamed_set_up, in_adv_set_up, in_sol_set_up,
}
use pdrad.Prelude.{
  ℕ, ◌≡◌, ◌≢◌, ◌⊎◌, List, [], ◌∷◌, ◌++◌, Option, none, some, Bool, true, false, if◌then◌else◌,
}
use pdrad.Memory.{Bytes, Ptr, done, Fault, Malloc}
use pdrad.Interface.{Answer, Interface, among, remove}
use pdrad.Dhcp.Packets.{Environment}
use pdrad.Daemon.Request.{Network, Outcome, request_and_receive_dhcp}
use pdrad.Daemon.Setup.{
  Shared, Setup, exits, returns_with, enters, setup_adv, setup_requester, setup_sol,
}
use pdrad.Daemon.Setup.Descriptors.{Fresh}
use pdrad.Daemon.Threads.{
  Announcer, adv, sol, Thread, requester, announcer, Requesting, asking, answered, System,
  received_prefix, start, Step, lock_requester, request, set_preferred, set_valid,
  set_prefix_length, unlock_requester, end_requester, launch, query_address, prepare,
  lock_announcer, copy_prefix, send, unlock_announcer, end_announcer, raise, hold, holding, held,
  signal,
}

-- Who makes a step of Daemon/Threads, and where.
pub data Kind : Type 0 where
  in_loop leaves_loop : Thread → Kind
  asks creates raises holds handles : Kind

unfoldable pub kind : {s t : System} → Step s t → Kind
kind (lock_requester e c m) = in_loop requester
kind (request node_fits base ms env net buffer e r) = asks
kind (set_preferred e c) = in_loop requester
kind (set_valid e c) = in_loop requester
kind (set_prefix_length e c) = in_loop requester
kind (unlock_requester e) = in_loop requester
kind (end_requester e c) = leaves_loop requester
kind (launch e f h n) = creates
kind (query_address a connect getsockname e c k) = in_loop (announcer a)
kind (prepare a ioctl packets dst e d h q) = in_loop (announcer a)
kind (lock_announcer a e m) = in_loop (announcer a)
kind (copy_prefix a e r) = in_loop (announcer a)
kind (send a ms e hl hv hf hs) = in_loop (announcer a)
kind (unlock_announcer a e) = in_loop (announcer a)
kind (end_announcer a e c) = leaves_loop (announcer a)
kind (raise flags up) = raises
kind (hold hs) = holds
kind signal = handles

pub data Move (p : Program) : Program → Type 0 where
  -- the loops, and what follows them
  loop_step :
      (t : Thread) {hs : List ℕ} {s : System} (st : Step p.system s)
      → kind st ≡ in_loop t
      → IsGoing p.stage
      → p.place t ≡ looping hs
      → Move p (record p { system = s })
  -- a request sends on the socket, if that is open, and closes it
  ask :
      (node_fits : ℕ → Bool) (base : ℕ) (ms : ℕ → Malloc) (env : Environment) (net : Network)
      {h code : ℕ} {packet buffer' : Bytes} {lease : Option Bytes}
      → IsGoing p.stage
      → p.place requester ≡ looping (h ∷ [])
      → (among h (held p.system) ≡ true) ⊎ (net.sendto ≡ false)
      → p.system.requesting ≡ asking
      → request_and_receive_dhcp node_fits base ms env net p.buffer
        ≡ done (Outcome.returned code packet buffer' lease)
      → Move p (record p {
        system = holding (remove h (held p.system)) (record p.system {
          prefix = received_prefix p.system.prefix lease;
          requesting = answered;
        });
        buffer = buffer';
      })
  ask_exits :
      (node_fits : ℕ → Bool) (base : ℕ) (ms : ℕ → Malloc) (env : Environment) (net : Network)
      {hs : List ℕ}
      → IsGoing p.stage
      → p.place requester ≡ looping hs
      → p.system.requesting ≡ asking
      → request_and_receive_dhcp node_fits base ms env net p.buffer ≡ done Outcome.exited
      → Move p (record p { stage = over })
  loop_end :
      (t : Thread) {hs : List ℕ} {s : System} (st : Step p.system s)
      → kind st ≡ leaves_loop t
      → IsGoing p.stage
      → p.place t ≡ looping hs
      → Move p
          (record p { system = holding (close_all hs (held s)) s; place = put p.place t returned })
  -- the set-ups
  set_up_requester :
      (socket : Option ℕ) (ms : ℕ → Malloc) (setsockopt bind : Answer (Unit {0})) (mtu : Answer ℕ)
      {name : Bytes} {r : Setup (ℕ × Bytes)}
      → IsGoing p.stage
      → p.place requester ≡ created
      → p.wan ≡ some name
      → IsNew p socket
      → setup_requester (shared p) name socket ms setsockopt bind mtu ≡ done r
      → Move p (after_requester p r)
  -- without a name, and without a socket
  set_up_unnamed :
      IsGoing p.stage
      → p.place requester ≡ created
      → p.wan ≡ none
      → Move p (after_requester p (returns_with (record (shared p) { requester_cancelled = true })))
  set_up_adv :
      (socket : Option ℕ) (m : Malloc) (setsockopt : Answer (Unit {0})) {r : Setup ℕ}
      → IsGoing p.stage
      → p.place (announcer adv) ≡ created
      → IsNew p socket
      → setup_adv (shared p) p.lan socket m setsockopt ≡ done r
      → Move p (after_adv p r)
  set_up_sol :
      (receiving sending : Option ℕ) (bind_receiving bind_sending join bind : Answer (Unit {0}))
      {r : Setup ℕ}
      → IsGoing p.stage
      → p.place (announcer sol) ≡ created
      → IsNew p receiving
      → IsNew (opens receiving p) sending
      → setup_sol (shared p) p.lan receiving sending bind_receiving bind_sending join bind ≡ done r
      → Move p (after_sol p sending r)
  -- `main` and the signal handler
  create :
      {s : System} (st : Step p.system s)
      → kind st ≡ creates
      → p.stage ≡ waiting
      → Move p (record p { system = s; stage = watching; place = create_announcers p.place })
  main_returns :
      p.stage ≡ watching
      → (p.system.cancelled (announcer sol) ≡ true) ⊎ (p.system.cancelled (announcer adv) ≡ true)
      → Move p (record p { stage = over })
  -- an access that is a fault ends the process
  crash : {e : Fault} → IsGoing p.stage → Faulting p e → Move p (record p { stage = crashed })
  handle :
      {s : System} (st : Step p.system s)
      → kind st ≡ handles
      → IsGoing p.stage
      → Move p (record p { system = s })

pub data Runs (p : Program) : Program → Type 0 where
  stays : Runs p p
  then_move : {q r : Program} → Runs p q → Move q r → Runs p r

-- With DHCP `main` creates the thread that requests and waits, with a static prefix it creates the
-- two others.
abbrev pub first_place : Bool → Thread → Place
first_place use_dhcp requester = if use_dhcp then created else absent
first_place use_dhcp (announcer a) = if use_dhcp then absent else created

abbrev pub launched : Bool → Bytes → Interface → Bytes → Ptr → Program
launched use_dhcp prefix interface lan wan = record {
  system = start use_dhcp prefix interface;
  stage = if use_dhcp then waiting else watching;
  place = first_place use_dhcp;
  buffer = [];
  lan = lan;
  wan = wan;
}
