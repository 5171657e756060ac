-- ===== src/Daemon/Threads/Release.antt =====
-- Whoever holds the mutex can unlock it.
use pdrad.Prelude.{
  ◌≤◌, ◌≡◌, refl, subst, ◌∙◌, [], ◌⊎◌, inl, inr, Option, none, some, true, false, length, arith,
}
use pdrad.Memory.{Bytes}
use pdrad.Dhcp.Packets.{Environment}
use pdrad.Daemon.Request.{Network}
use pdrad.Daemon.Threads.{
  Announcer, adv, sol, Thread, requester, announcer, Requesting, asleep, asking, answered,
  preferred_set, valid_set, settled, Locals, Announcing, unborn, idle, addressed, ready, locked,
  copied, sent, System, update, request, set_preferred, set_valid, set_prefix_length,
  unlock_requester, copy_prefix, unlock_announcer, Reach, here, later,
}
use pdrad.Daemon.Threads.Invariant.{requester_holds, announcer_holds, other}
use pdrad.Daemon.Request.Sent.{request_and_receive_dhcp_lem}
use pdrad.Daemon.Threads.Assigned.{convert_preferred_total, convert_valid_total, set_length_total}
use pdrad.Daemon.Threads.Owner.{Owner}
use pdrad.Daemon.Threads.Fit.{Fit, Reach-Fit}
use pdrad.Daemon.Threads.Ready.{zeroed_all, read_in, send-Step, Reach-trans}

-- A state in which nobody holds the mutex, and the advertising thread is as before or at its head.
pub record Released (s : System) : Type 0 where
  pub last : System
  pub reach : Reach s last
  pub unlocked : last.mutex ≡ none
  pub here_or_idle : (last.announcing adv ≡ s.announcing adv) ⊎ (last.announcing adv ≡ idle)
  pub kept : length s.messages ≤ length last.messages
  pub flags : last.cancelled ≡ s.cancelled

Released-after :
    {s t : System}
    → Reach s t
    → t.announcing adv ≡ s.announcing adv
    → length s.messages ≤ length t.messages
    → t.cancelled ≡ s.cancelled
    → Released t
    → Released s
Released-after {s} r e h f w = record {
  last = w.last;
  reach = Reach-trans r w.reach;
  unlocked = w.unlocked;
  here_or_idle =
      subst (λ x. (w.last.announcing adv ≡ x) ⊎ (w.last.announcing adv ≡ idle)) e w.here_or_idle;
  kept = omega (arith, w.kept);
  flags = w.flags ∙ f;
}

from_settled : (s : System) → s.requesting ≡ settled → Released s
from_settled s e = record {
  last = _;
  reach = later here (unlock_requester e);
  unlocked = refl;
  here_or_idle = inl refl;
  kept = omega arith;
  flags = refl;
}

from_valid_set : (s : System) → Fit s → s.requesting ≡ valid_set → Released s
from_valid_set s fit e =
    let (p, h, l) = set_length_total s.prefix fit.size in
    Released-after (later here (set_prefix_length e h)) refl (omega arith) refl
      (from_settled _ refl)

from_preferred_set : (s : System) → Fit s → s.requesting ≡ preferred_set → Released s
from_preferred_set s fit e =
    let (p, h, l) = convert_valid_total s.prefix fit.size in
    let r = later here (set_valid e h) in
    Released-after r refl (omega arith) refl (from_valid_set _ (Reach-Fit fit r) refl)

from_answered : (s : System) → Fit s → s.requesting ≡ answered → Released s
from_answered s fit e =
    let (p, h, l) = convert_preferred_total s.prefix fit.size in
    let r = later here (set_preferred e h) in
    Released-after r refl (omega arith) refl (from_preferred_set _ (Reach-Fit fit r) refl)

abbrev pub some_environment : Environment
some_environment = record { clock = some (0, 0); random = λ n. n }

abbrev pub no_network : Network
no_network = record { sendto = false; recvfrom = none }

-- A request can return, if only because nothing can be sent.
from_asking : (s : System) → Fit s → s.requesting ≡ asking → Released s
from_asking s fit e =
    let answer =
      request_and_receive_dhcp_lem (λ n. true) 0 zeroed_all some_environment no_network [] refl refl
        refl refl refl refl refl in
    let r = later here (request (λ n. true) 0 zeroed_all some_environment no_network [] e answer) in
    Released-after r refl (omega arith) refl (from_answered _ (Reach-Fit fit r) refl)

from_requesting :
    (s : System) (x : Requesting) → Fit s → requester_holds x ≡ true → s.requesting ≡ x → Released s
from_requesting s asleep fit h e = cc
from_requesting s asking fit h e = from_asking s fit e
from_requesting s answered fit h e = from_answered s fit e
from_requesting s preferred_set fit h e = from_preferred_set s fit e
from_requesting s valid_set fit h e = from_valid_set s fit e
from_requesting s settled fit h e = from_settled s e
from_requesting s Requesting.ended fit h e = cc

abbrev At : System → Announcer → Announcing → Type 0
At s a x = s.announcing a ≡ x

update_at : (f : Announcer → Announcing) (a : Announcer) (x : Announcing) → update f a x a ≡ x
update_at f adv x = refl
update_at f sol x = refl

-- A state from which the thread `a` can unlock, on the way from `s`.
record OnWay (s : System) (a : Announcer) : Type 0 where
  last : System
  reach : Reach s last
  there : last.announcing a ≡ sent
  other_kept : last.announcing (other a) ≡ s.announcing (other a)
  kept : length s.messages ≤ length last.messages
  flags : last.cancelled ≡ s.cancelled

update-other :
    (f : Announcer → Announcing) (a : Announcer) (x : Announcing)
    → update f a x (other a) ≡ f (other a)
update-other f adv x = refl
update-other f sol x = refl

way_copied :
    (s : System) (a : Announcer) (l : Locals) (p : Bytes)
    → Fit s
    → s.announcing a ≡ copied l p
    → OnWay s a
way_copied s a l p fit e =
    let (m, st) = send-Step s a l p fit e in
    record {
      last = _;
      reach = later here st;
      there = update_at s.announcing a sent;
      other_kept = update-other s.announcing a sent;
      kept = omega arith;
      flags = refl;
    }

way_locked :
    (s : System) (a : Announcer) (l : Locals) → Fit s → s.announcing a ≡ locked l → OnWay s a
way_locked s a l fit e =
    let (p, h) = read_in s.prefix fit.size in
    let r = later here (copy_prefix a e h) in
    let w = way_copied _ a l p (Reach-Fit fit r) (update_at s.announcing a (copied l p)) in
    record {
      last = w.last;
      reach = Reach-trans r w.reach;
      there = w.there;
      other_kept = w.other_kept ∙ update-other s.announcing a (copied l p);
      kept = w.kept;
      flags = w.flags;
    }

way :
    (s : System) (a : Announcer) (x : Announcing)
    → Fit s
    → announcer_holds x ≡ true
    → s.announcing a ≡ x
    → OnWay s a
way s a unborn fit h e = cc
way s a idle fit h e = cc
way s a Announcing.ended fit h e = cc
way s a (addressed src) fit h e = cc
way s a (ready l) fit h e = cc
way s a (locked l) fit h e = way_locked s a l fit e
way s a (copied l p) fit h e = way_copied s a l p fit e
way s a sent fit h e = record {
  last = s;
  reach = here;
  there = e;
  other_kept = refl;
  kept = omega arith;
  flags = refl;
}

from_way : (s : System) (a : Announcer) → OnWay s a → Released s
from_way s a w = record {
  last = _;
  reach = later w.reach (unlock_announcer a w.there);
  unlocked = refl;
  here_or_idle = at_adv a w.other_kept;
  kept = w.kept;
  flags = w.flags;
}
  where
    at_adv :
        (a : Announcer)
        → w.last.announcing (other a) ≡ s.announcing (other a)
        → (update w.last.announcing a idle adv ≡ s.announcing adv)
          ⊎ (update w.last.announcing a idle adv ≡ idle)
    at_adv adv e = inr refl
    at_adv sol e = inl e

pub release :
    (s : System) (m : Option Thread)
    → Fit s
    → Owner m s.requesting s.announcing
    → s.mutex ≡ m
    → Released s
release s none fit o e = record {
  last = s;
  reach = here;
  unlocked = e;
  here_or_idle = inl refl;
  kept = omega arith;
  flags = refl;
}
release s (some requester) fit o e = from_requesting s s.requesting fit o refl
release s (some (announcer a)) fit o e = from_way s a (way s a (s.announcing a) fit o refl)
