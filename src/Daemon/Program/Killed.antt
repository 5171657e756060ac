-- ===== src/Daemon/Program/Killed.antt =====
-- An answer that ends the process.
use pdrad.Prelude.{ℕ, suc, ◌<◌, ◌≡◌, refl, inl, some, true, length, arith}
use pdrad.Memory.{Bytes, Fault, Malloc}
use pdrad.Memory.Samples.{zeros}
use pdrad.Memory.Supply.{Plentiful}
use pdrad.Interface.{ok}
use pdrad.Interface.Calls.{among_self}
use pdrad.Dhcp.Packets.{Environment}
use pdrad.Daemon.Start.{zeros_of}
use pdrad.Daemon.Request.{Network}
use pdrad.Daemon.Request.Fatal.{Fatal, request-Fatal}
use pdrad.Daemon.Setup.{zeroed_buffer}
use pdrad.Daemon.Threads.{requester, lock_requester}
use pdrad.Daemon.Threads.Ready.{zeroed_all}
use pdrad.Daemon.Program.{
  crashed, in_request, Faulting, Move, Program, shared, kind, loop_step, set_up_requester, crash,
  Runs, stays, then_move, launched,
}
use pdrad.Daemon.Program.Prepared.{bound_to, requester_enters}

-- The fault of a request on this network.
abbrev IsRequest : Network → {p : Program} {e : Fault} → Faulting p e → Type 0
IsRequest net (in_request node_fits base ms env net' h o a e) = net' ≡ net
IsRequest net _ = ⊥

abbrev IsKilling : Network → {p q : Program} → Move p q → Type 0
IsKilling net (crash g f) = IsRequest net f
IsKilling net _ = ⊥

-- The run ends with such a fault.
abbrev pub IsKilled : Network → {p q : Program} → Runs p q → Type 0
IsKilled net stays = ⊥
IsKilled net (then_move r m) = IsKilling net m

module _ (u : ℕ) (req lan name : Bytes) (short : length name < 40) (mtu base : ℕ) (ms : ℕ → Malloc)
    (env : Environment) (net : Network) {sec nsec : ℕ} {e : Fault}
    (time : env.clock ≡ some (sec, nsec)) (has : Plentiful ms)
    (fatal : Fatal base (zeroed_buffer (zeros mtu)) net e) where
  pub request_kills :
      (q : Program) × (r : Runs (launched true (zeros_of 25) (bound_to u req) lan (some name)) q)
      × IsKilled net r
      × (q.stage ≡ crashed)
  unfolding kind
  request_kills =
      let p0 = launched true (zeros_of 25) (bound_to u req) lan (some name) in
      let r1 = then_move stays (
        set_up_requester (some (suc u)) zeroed_all (ok tt) (ok tt) (ok mtu) tt refl refl
          (omega arith, tt) (requester_enters (shared p0) name (suc u) mtu short)) in
      let r2 = then_move r1 (loop_step requester (lock_requester refl refl refl) refl tt refl) in
      let r3 = then_move r2 (
        crash tt (
          in_request (λ n. true) base ms env net refl (inl (among_self (suc u))) refl
            (request-Fatal (λ n. true) base ms env net (zeroed_buffer (zeros mtu)) time has
              fatal))) in
      (_, r3, refl, refl)
