-- ===== src/Daemon/Threads/Progress.antt =====
-- From every reachable state the advertising thread can send.
use pdrad.Prelude.{
  ◌≤◌, ◌<◌, ◌≡◌, ◌≢◌, refl, sym, ap, ◌∙◌, [], ◌++◌, inl, inr, none, Bool, false, length, arith,
}
use pdrad.Memory.{Bytes, be32}
use pdrad.Interface.{Interface, err, ebadf}
use pdrad.Interface.Sizes.{HasRequest, get_hardware_address_total}
use pdrad.Daemon.Start.{zeros_of}
use pdrad.Daemon.Threads.{
  query_address, addressed, Destination, adv, announcer, Locals, Announcing, unborn, idle, ready,
  locked, copied, sent, System, prepare, lock_announcer, copy_prefix, Reach, here, later, start,
}
use pdrad.Daemon.Threads.Invariant.{announcer_holds}
use pdrad.Address.Order.{htobe_inet6_lem}
use pdrad.Daemon.Threads.Preserved.{false_of, reachable-Inv}
use pdrad.Daemon.Threads.Fit.{Fit, Reach-Fit, start-Fit}
use pdrad.Daemon.Threads.Ready.{read_in, send-Step, Reach-trans}
use pdrad.Daemon.Threads.Release.{release}

-- A way to a state in which the advertising thread has just sent one more message.
pub record Sends (s : System) : Type 0 where
  pub last : System
  pub reach : Reach s last
  pub there : last.announcing adv ≡ sent
  pub more : length s.messages < length last.messages

pub Sends-after :
    {s t : System} → Reach s t → length s.messages ≤ length t.messages → Sends t → Sends s
Sends-after r h w = record {
  last = w.last;
  reach = Reach-trans r w.reach;
  there = w.there;
  more = omega (arith, w.more);
}

from_copied :
    (s : System) (l : Locals) (p : Bytes) → Fit s → s.announcing adv ≡ copied l p → Sends s
from_copied s l p fit e =
    let (m, st) = send-Step s adv l p fit e in
    record { last = _; reach = later here st; there = refl; more = omega arith }

from_locked : (s : System) (l : Locals) → Fit s → s.announcing adv ≡ locked l → Sends s
from_locked s l fit e =
    let (p, h) = read_in s.prefix fit.size in
    let r = later here (copy_prefix adv e h) in
    Sends-after r (omega arith) (from_copied _ l p (Reach-Fit fit r) refl)

from_ready :
    (s : System) (l : Locals) → Fit s → s.mutex ≡ none → s.announcing adv ≡ ready l → Sends s
from_ready s l fit free e =
    let r = later here (lock_announcer adv e free) in
    Sends-after r (omega arith) (from_locked _ l (Reach-Fit fit r) refl)

-- The address ff02::1.
abbrev pub all_nodes : Bytes
all_nodes = be32 0xff020000 ++ be32 0 ++ be32 0 ++ be32 1

pub to_all_nodes : Destination adv [] all_nodes
to_all_nodes =
    (refl, htobe_inet6_lem 0xff020000 0 0 1 (omega arith) (omega arith) (omega arith) (omega arith))

-- A round goes on though its queries fail.
from_addressed :
    (s : System) (src : Bytes) → Fit s → s.mutex ≡ none → s.announcing adv ≡ addressed src → Sends s
from_addressed s src fit free e =
    let (o, q) =
      get_hardware_address_total s.interface s.interface.request (zeros_of 8) refl fit.usable in
    let r = later here (prepare adv (err ebadf) [] all_nodes e to_all_nodes refl q) in
    Sends-after r (omega arith) (from_ready _ _ (Reach-Fit fit r) free refl)

from_idle :
    (s : System)
    → Fit s
    → s.mutex ≡ none
    → s.cancelled (announcer adv) ≡ false
    → s.announcing adv ≡ idle
    → Sends s
from_idle s fit free runs e =
    let r = later here (query_address adv (err ebadf) (err ebadf) e runs tt) in
    Sends-after r (omega arith) (from_addressed _ _ (Reach-Fit fit r) free refl)

-- With the mutex free.
from_unlocked :
    (s : System) (x : Announcing)
    → Fit s
    → s.mutex ≡ none
    → s.cancelled (announcer adv) ≡ false
    → x ≢ unborn
    → x ≢ Announcing.ended
    → announcer_holds x ≡ false
    → s.announcing adv ≡ x
    → Sends s
from_unlocked s unborn fit free runs n1 n2 h e = absurd (n1 refl)
from_unlocked s idle fit free runs n1 n2 h e = from_idle s fit free runs e
from_unlocked s Announcing.ended fit free runs n1 n2 h e = absurd (n2 refl)
from_unlocked s (addressed src) fit free runs n1 n2 h e = from_addressed s src fit free e
from_unlocked s (ready l) fit free runs n1 n2 h e = from_ready s l fit free e
from_unlocked s (locked l) fit free runs n1 n2 h e = cc
from_unlocked s (copied l p) fit free runs n1 n2 h e = cc
from_unlocked s sent fit free runs n1 n2 h e = cc

-- If the first prefix has its 25 bytes and `utils_Init` has left a request of 40, then from every
-- state that the threads reach in which `Thread_sendRouterAdv` was created, has not ended and is
-- not cancelled, some further steps lead to one in which it has sent a message more: nobody holds
-- the mutex for good, whatever the threads have done.
pub threads_progress :
    (use_dhcp : Bool) (initial : Bytes) (interface : Interface) {s : System}
    → length initial ≡ 25
    → HasRequest interface.request
    → Reach (start use_dhcp initial interface) s
    → s.cancelled (announcer adv) ≡ false
    → s.announcing adv ≢ unborn
    → s.announcing adv ≢ Announcing.ended
    → Sends s
threads_progress use_dhcp initial interface {s} size usable r runs n1 n2 =
    let fit = Reach-Fit (start-Fit use_dhcp initial interface size usable) r in
    let w = release s s.mutex fit fit.owner refl in
    let r' = Reach-trans r w.reach in
    let fit' = Reach-Fit (start-Fit use_dhcp initial interface size usable) r' in
    let inv = reachable-Inv use_dhcp initial interface r' in
    let runs' = ap (λ f. f (announcer adv)) w.flags ∙ runs in
    let free : announcer_holds (w.last.announcing adv) ≡ false =
      false_of _ (λ h. let l = inv.announcer_locks adv h in let u = w.unlocked in cc) in
    Sends-after w.reach w.kept (elim w.here_or_idle [
      | inl same ↦
          from_unlocked w.last (w.last.announcing adv) fit' w.unlocked runs'
            (λ q. n1 (sym same ∙ q)) (λ q. n2 (sym same ∙ q)) free refl
      | inr head ↦ from_idle w.last fit' w.unlocked runs' head
    ])
