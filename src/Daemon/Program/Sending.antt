-- ===== src/Daemon/Program/Sending.antt =====
-- From where the process stands when its threads are in their loops, it comes to send.
use pdrad.Prelude.{ℕ, ◌≤◌, ◌<◌, ◌≡◌, refl, List, [], none, false, length, arith}
use pdrad.Memory.{Bytes}
use pdrad.Interface.{err, ebadf}
use pdrad.Interface.Sizes.{get_hardware_address_total}
use pdrad.Daemon.Start.{zeros_of}
use pdrad.Daemon.Threads.{
  adv, announcer, Locals, idle, addressed, ready, locked, copied, System, Step, query_address,
  prepare, lock_announcer, copy_prefix, send, here, later,
}
use pdrad.Daemon.Threads.Fit.{Fit, Reach-Fit}
use pdrad.Daemon.Threads.Ready.{zeroed_all, read_in, sendable}
use pdrad.Daemon.Threads.Progress.{all_nodes, to_all_nodes}
use pdrad.Daemon.Program.Asked.{Condition, AllAsked, Runs-trans, AllAsked-trans}
use pdrad.Daemon.Program.{
  IsGoing, looping, Program, kind, in_loop, loop_step, Runs, stays, then_move,
}

-- A run, with requests that meet the condition, in which a message more is given to `sendmsg`.
pub record Sends (C : Condition) (p : Program) : Type 0 where
  pub last : Program
  pub run : Runs p last
  pub asked : AllAsked C run
  pub more : length p.system.messages < length last.system.messages

pub Sends-after :
    {C : Condition} {p q : Program} (r : Runs p q)
    → AllAsked C r
    → length p.system.messages ≤ length q.system.messages
    → Sends C q
    → Sends C p
Sends-after r k h w = record {
  last = w.last;
  run = Runs-trans r w.run;
  asked = AllAsked-trans _ r w.run k w.asked;
  more = omega (arith, w.more);
}

-- `Thread_sendRouterAdv` is in its loop, and is not cancelled.
pub record IsAnnouncing (p : Program) : Type 0 where
  pub fit : Fit p.system
  pub alive : IsGoing p.stage
  pub runs : p.system.cancelled (announcer adv) ≡ false
  pub sockets : List ℕ
  pub there : p.place (announcer adv) ≡ looping sockets

module _ (p : Program) (v : IsAnnouncing p) where
  moved :
      {s : System} (st : Step p.system s)
      → s.cancelled (announcer adv) ≡ false
      → IsAnnouncing (record p { system = s })
  moved st e = record {
    fit = Reach-Fit v.fit (later here st);
    alive = v.alive;
    runs = e;
    sockets = v.sockets;
    there = v.there;
  }

  abbrev one_step :
      {s : System} (st : Step p.system s)
      → kind st ≡ in_loop (announcer adv)
      → Runs p (record p { system = s })
  one_step st k = then_move stays (loop_step (announcer adv) st k v.alive v.there)

from_copied :
    {C : Condition} (p : Program) (l : Locals) (d : Bytes)
    → IsAnnouncing p
    → p.system.announcing adv ≡ copied l d
    → Sends C p
unfolding kind
from_copied p l d v e =
    let w = sendable p.system adv l d v.fit e in
    let st = send adv zeroed_all e w.has_length w.has_valid w.has_preferred w.made in
    record { last = _; run = one_step p v st refl; asked = (tt, tt); more = omega arith }

from_locked :
    {C : Condition} (p : Program) (l : Locals)
    → IsAnnouncing p
    → p.system.announcing adv ≡ locked l
    → Sends C p
unfolding kind
from_locked p l v e =
    let (d, h) = read_in p.system.prefix v.fit.size in
    let st = copy_prefix adv e h in
    Sends-after (one_step p v st refl) (tt, tt) (omega arith)
      (from_copied _ l d (moved p v st v.runs) refl)

from_ready :
    {C : Condition} (p : Program) (l : Locals)
    → IsAnnouncing p
    → p.system.mutex ≡ none
    → p.system.announcing adv ≡ ready l
    → Sends C p
unfolding kind
from_ready p l v free e =
    let st = lock_announcer adv e free in
    Sends-after (one_step p v st refl) (tt, tt) (omega arith)
      (from_locked _ l (moved p v st v.runs) refl)

from_addressed :
    {C : Condition} (p : Program) (src : Bytes)
    → IsAnnouncing p
    → p.system.mutex ≡ none
    → p.system.announcing adv ≡ addressed src
    → Sends C p
unfolding kind
from_addressed p src v free e =
    let i = p.system.interface in
    let (o, q) = get_hardware_address_total i i.request (zeros_of 8) refl v.fit.usable in
    let st = prepare adv (err ebadf) [] all_nodes e to_all_nodes refl q in
    Sends-after (one_step p v st refl) (tt, tt) (omega arith)
      (from_ready _ _ (moved p v st v.runs) free refl)

pub from_idle :
    {C : Condition} (p : Program)
    → IsAnnouncing p
    → p.system.mutex ≡ none
    → p.system.announcing adv ≡ idle
    → Sends C p
unfolding kind
from_idle p v free e =
    let st = query_address adv (err ebadf) (err ebadf) e v.runs tt in
    Sends-after (one_step p v st refl) (tt, tt) (omega arith)
      (from_addressed _ _ (moved p v st v.runs) free refl)
