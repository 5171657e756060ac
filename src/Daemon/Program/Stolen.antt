-- ===== src/Daemon/Program/Stolen.antt =====
-- `requestAndReceiveDhcp` closes a number that is another socket by then.
use pdrad.Prelude.{ℕ, suc, ◌<◌, ◌≡◌, refl, ap, ◌∙◌, [], ◌∷◌, inr, some, true, false, length}
use pdrad.Memory.{Bytes}
use pdrad.Interface.{among, remove}
use pdrad.Interface.Calls.{remove_self}
use pdrad.Daemon.Start.{zeros_of}
use pdrad.Daemon.Request.Sent.{request_and_receive_dhcp_lem}
use pdrad.Daemon.Threads.{adv, announcer, requester, held, lock_requester}
use pdrad.Daemon.Threads.Ready.{zeroed_all}
use pdrad.Daemon.Threads.Release.{some_environment, no_network}
use pdrad.Daemon.Program.{
  watching, looping, Program, kind, loop_step, ask, Runs, stays, then_move, launched,
}
use pdrad.Daemon.Program.Asked.{Runs-trans}
use pdrad.Daemon.Program.Prepared.{bound_to, dhcp_prepared, IsReused}

-- `Thread_sendRouterAdv` is in its loop, and its socket is closed, in a process that goes on.
pub record IsRobbed (p : Program) : Type 0 where
  pub socket : ℕ
  pub there : p.place (announcer adv) ≡ looping (socket ∷ [])
  pub closed : among socket (held p.system) ≡ false
  pub runs : p.system.cancelled (announcer adv) ≡ false
  pub watches : p.stage ≡ watching

-- The second round of the thread that requests.
second_round : (u : ℕ) (p : Program) → IsReused u p → (q : Program) × Runs p q × IsRobbed q
unfolding kind
second_round u p v =
    let answer =
      request_and_receive_dhcp_lem (λ n. true) 0 zeroed_all some_environment no_network p.buffer
        refl refl refl refl refl refl refl in
    let locked = then_move stays (
      loop_step requester (lock_requester v.asleep_there v.runs v.free) refl v.announcing.alive
        v.requester_socket) in
    let asked = then_move locked (
      ask (λ n. true) 0 zeroed_all some_environment no_network v.announcing.alive v.requester_socket
        (inr refl) refl answer) in
    (
      _,
      asked,
      record {
        socket = suc u;
        there = v.adv_socket;
        closed =
            ap (λ xs. among (suc u) (remove (suc u) xs)) v.open_socket
            ∙ ap (among (suc u)) (remove_self (suc u));
        runs = v.announcing.runs;
        watches = v.watches;
      },
    )

pub launched-IsRobbed :
    (u : ℕ) (req lan name : Bytes)
    → length req ≡ 40
    → length lan < 40
    → length name < 40
    → (p : Program) × Runs (launched true (zeros_of 25) (bound_to u req) lan (some name)) p
      × IsRobbed p
launched-IsRobbed u req lan name usable short short' =
    let (p, r, k, v) = dhcp_prepared u req lan name usable short short' in
    let (q, r', w) = second_round u p v in (q, Runs-trans r r', w)
