-- ===== src/Daemon/Program/Prepared.antt =====
-- Runs in which the threads come to their loops.
use pdrad.Prelude.{
  ℕ, suc, ◌<◌, ◌≡◌, ◌≢◌, refl, ap, List, [], ◌∷◌, ◌++◌, inl, Option, none, some, true, false,
  length, arith,
}
use pdrad.Memory.{Bytes, Ptr, done, Malloc, load8}
use pdrad.Dhcp.Packets.{Environment}
use pdrad.Daemon.Request.{Network, Outcome, request_and_receive_dhcp}
use pdrad.Memory.Samples.{zeroed, zeros}
use pdrad.Interface.{ok, Interface, live, remove}
use pdrad.Interface.Calls.{remove_self, among_self}
use pdrad.Interface.Query.{name_stored}
use pdrad.Daemon.Start.{zeros_of}
use pdrad.Daemon.Lease.{convert_preferred, convert_valid, set_length}
use pdrad.Daemon.Request.Sent.{request_and_receive_dhcp_lem}
use pdrad.Daemon.Setup.{Shared, enters, opening, setup_adv, setup_requester, zeroed_buffer}
use pdrad.Daemon.Setup.Descriptors.{Fresh}
use pdrad.Daemon.Threads.{
  adv, announcer, requester, received_prefix, asleep, idle, lock_requester, set_preferred,
  set_valid, set_prefix_length, unlock_requester, launch, held,
}
use pdrad.Daemon.Threads.Fit.{Reach-Fit, start-Fit}
use pdrad.Daemon.Threads.Ready.{zeroed_all}
use pdrad.Daemon.Threads.Release.{some_environment, no_network}
use pdrad.Daemon.Program.{
  watching, looping, Program, shared, kind, loop_step, ask, set_up_requester, set_up_adv, create,
  Runs, stays, then_move, launched,
}
use pdrad.Daemon.Program.Asked.{Condition, unanswered, AllAsked}
use pdrad.Daemon.Program.Simulation.{Runs-Reach}
use pdrad.Daemon.Program.Sending.{IsAnnouncing}

-- What `utils_Init` leaves when nothing fails.
abbrev pub bound_to : ℕ → Bytes → Interface
bound_to h req = record { handler = some h; request = live req; opened = h ∷ []; others = [] }

pub adv_enters :
    (s : Shared) (name : Bytes) (h : ℕ)
    → length name < 40
    → setup_adv s name (some h) zeroed (ok tt) ≡ done (enters (opening h s) h)
unfolding setup_adv
adv_enters s name h short = let (b, p, q) = name_stored name (zeros 40) short refl in rw p

pub requester_enters :
    (s : Shared) (name : Bytes) (h mtu : ℕ)
    → length name < 40
    → setup_requester s name (some h) zeroed_all (ok tt) (ok tt) (ok mtu)
      ≡ done (enters (opening h s) (h, zeroed_buffer (zeros mtu)))
unfolding setup_requester
requester_enters s name h mtu short = let (b, p, q) = name_stored name (zeros 40) short refl in rw p

pub sixty_four : ◌≢◌ {A = ℕ} 64 0
sixty_four = omega arith

-- With a static prefix.
module _ (prefix : Bytes) (u : ℕ) (req lan : Bytes) (wan : Ptr) where
  pub static_prepared :
      length prefix ≡ 25
      → length req ≡ 40
      → length lan < 40
      → (C : Condition)
      → (p : Program) × (r : Runs (launched false prefix (bound_to u req) lan wan) p) × AllAsked C r
        × IsAnnouncing p
        × (p.system.mutex ≡ none)
        × (p.system.announcing adv ≡ idle)
        × (p.system.messages ≡ [])
  static_prepared size usable short C =
      let p = launched false prefix (bound_to u req) lan wan in
      let run = then_move stays (
        set_up_adv (some (suc u)) zeroed (ok tt) tt refl (omega arith, tt)
          (adv_enters (shared p) lan (suc u) short)) in
      (
        _,
        run,
        (tt, tt),
        record {
          fit = Reach-Fit (start-Fit false prefix (bound_to u req) size usable) (Runs-Reach run);
          alive = tt;
          runs = refl;
          sockets = _;
          there = refl;
        },
        refl,
        refl,
        refl,
      )

-- A number that was closed can be given again.
again-Fresh : (u : ℕ) → Fresh (suc u) (remove (suc u) (suc u ∷ []) ++ u ∷ [])
again-Fresh u = rw (remove_self (suc u)) (omega arith, tt)

-- With DHCP, after the first round: the socket was closed, and the kernel has given its number to
-- `Thread_sendRouterAdv`.
pub record IsReused (u : ℕ) (p : Program) : Type 0 where
  pub announcing : IsAnnouncing p
  pub free : p.system.mutex ≡ none
  pub at_head : p.system.announcing adv ≡ idle
  pub asleep_there : p.system.requesting ≡ asleep
  pub runs : p.system.cancelled requester ≡ false
  pub watches : p.stage ≡ watching
  pub requester_socket : p.place requester ≡ looping (suc u ∷ [])
  pub adv_socket : p.place (announcer adv) ≡ looping (suc u ∷ [])
  pub open_socket : held p.system ≡ suc u ∷ []
  pub unsent : p.system.messages ≡ []

-- The first round of `Thread_requestDhcpPrefix`, with what the request and the assignments leave.
module _ (u : ℕ) (req lan name : Bytes) (usable : length req ≡ 40) (short : length lan < 40)
    (short' : length name < 40) (mtu base : ℕ) (ms : ℕ → Malloc) (env : Environment) (net : Network)
    {code : ℕ} {packet buffer' : Bytes} {given : Option Bytes} {p1 p2 p3 : Bytes} {l : ℕ}
    (answer : request_and_receive_dhcp (λ n. true) base ms env net (zeroed_buffer (zeros mtu))
      ≡ done (Outcome.returned code packet buffer' given))
    (c1 : convert_preferred (received_prefix (zeros_of 25) given) ≡ done p1)
    (c2 : convert_valid p1 ≡ done p2) (c3 : set_length p2 ≡ done p3) (hl : load8 p3 8 ≡ done l)
    (hn : l ≢ 0) (C : Condition)
    (meets : C (λ n. true) base ms env net (zeroed_buffer (zeros mtu))) where
  pub round_prepared :
      (p : Program) × (r : Runs (launched true (zeros_of 25) (bound_to u req) lan (some name)) p)
      × AllAsked C r
      × IsReused u p
  unfolding kind
  round_prepared =
      let p0 = launched true (zeros_of 25) (bound_to u req) lan (some name) in
      let r1 = then_move stays (
        set_up_requester (some (suc u)) zeroed_all (ok tt) (ok tt) (ok mtu) tt refl refl
          (omega arith, tt) (requester_enters (shared p0) name (suc u) mtu short')) in
      let r2 = then_move r1 (loop_step requester (lock_requester refl refl refl) refl tt refl) in
      let r3 =
        then_move r2
          (ask (λ n. true) base ms env net tt refl (inl (among_self (suc u))) refl answer) in
      let r4 = then_move r3 (loop_step requester (set_preferred refl c1) refl tt refl) in
      let r5 = then_move r4 (loop_step requester (set_valid refl c2) refl tt refl) in
      let r6 = then_move r5 (loop_step requester (set_prefix_length refl c3) refl tt refl) in
      let r7 = then_move r6 (loop_step requester (unlock_requester refl) refl tt refl) in
      let r8 = then_move r7 (create (launch refl refl hl hn) refl refl) in
      let r9 = then_move r8 (
        set_up_adv (some (suc u)) zeroed (ok tt) tt refl (again-Fresh u)
          (adv_enters _ lan (suc u) short)) in
      (
        _,
        r9,
        (((((((((tt, tt), tt), meets), tt), tt), tt), tt), tt), tt),
        record {
          announcing = record {
            fit =
                Reach-Fit (start-Fit true (zeros_of 25) (bound_to u req) refl usable)
                  (Runs-Reach r9);
            alive = tt;
            runs = refl;
            sockets = _;
            there = refl;
          };
          free = refl;
          at_head = refl;
          asleep_there = refl;
          runs = refl;
          watches = refl;
          requester_socket = refl;
          adv_socket = refl;
          open_socket = ap (λ (xs : List ℕ). suc u ∷ xs) (remove_self (suc u));
          unsent = refl;
        },
      )

module _ (u : ℕ) (req lan name : Bytes) where
  -- Nothing can be sent.
  pub dhcp_prepared :
      length req ≡ 40
      → length lan < 40
      → length name < 40
      → (p : Program) × (r : Runs (launched true (zeros_of 25) (bound_to u req) lan (some name)) p)
        × AllAsked unanswered r
        × IsReused u p
  unfolding convert_preferred convert_valid set_length
  dhcp_prepared usable short short' =
      round_prepared u req lan name usable short short' 0 0 zeroed_all some_environment no_network
        (request_and_receive_dhcp_lem (λ n. true) 0 zeroed_all some_environment no_network [] refl
          refl refl refl refl refl refl)
        refl refl refl refl sixty_four unanswered refl
