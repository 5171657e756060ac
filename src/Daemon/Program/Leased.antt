-- ===== src/Daemon/Program/Leased.antt =====
-- What the process sends while every request brings the same lease.
use pdrad.Prelude.{
  ℕ, ◌^◌, ◌<◌, ◌≡◌, refl, sym, ap, subst, Option, Bool, List, [], ◌∷◌, inl, inr, true, length, All,
  arith,
}
use pdrad.Memory.{Bytes, Ptr}
use pdrad.Interface.{Interface}
use pdrad.Interface.Sizes.{HasRequest}
use pdrad.Daemon.Start.{zeros_of}
use pdrad.Daemon.Lease.Rounds.{lease_bytes, shared_bytes}
use pdrad.Daemon.Request.Delegated.{Delegates, Delegates-lease}
use pdrad.Daemon.Setup.{Shared, Setup, exits, returns_with, enters}
use pdrad.Daemon.Threads.{
  requester, announcer, adv, sol, Thread, received_prefix, request, System, Step, holding,
}
use pdrad.Daemon.Threads.Adverts.{IsAdvert, Step-IsAdvert}
use pdrad.Daemon.Threads.Exact.{Advertises, all_advertise}
use pdrad.Daemon.Threads.Invariant.{Inv}
use pdrad.Daemon.Threads.Fit.{Fit, Reach-Fit, start-Fit}
use pdrad.Daemon.Threads.Leased.{IsQuiet, Leased, Step-Leased, Leased-prefix}
use pdrad.Daemon.Threads.Preserved.{reachable-Inv}
use pdrad.Daemon.Program.{
  Place, returned, looping, option_list, set_up, flags_of, Program, kind, asks, Kind,
  after_requester, after_adv, after_sol, Move, loop_step, ask, ask_exits, loop_end,
  set_up_requester, set_up_unnamed, set_up_adv, set_up_sol, create, main_returns, crash, handle,
  Runs, stays, then_move, launched,
}
use pdrad.Daemon.Program.Asked.{IsAsked, AllAsked}
use pdrad.Daemon.Program.Simulation.{Runs-Reach}

abbrev KindIsQuiet : Kind → Type 0
KindIsQuiet asks = ⊥
KindIsQuiet _ = Unit

IsQuiet-step : {s t : System} (st : Step s t) → KindIsQuiet (kind st) → IsQuiet st
unfolding kind
IsQuiet-step (request node_fits base ms env net buffer e r) h = h
IsQuiet-step _ h = tt

kind-IsQuiet : {s t : System} (st : Step s t) {k : Kind} → kind st ≡ k → KindIsQuiet k → IsQuiet st
kind-IsQuiet st e h = IsQuiet-step st (subst KindIsQuiet (sym e) h)

module _ (preferred valid l : ℕ) (prefix : Bytes) where
  -- Every request of a run is answered with the lease.
  abbrev pub AllDelegated : {p q : Program} → Runs p q → Type 0
  AllDelegated r = AllAsked (Delegates (lease_bytes preferred valid l prefix)) r

  -- What stays between the loops' steps.
  flagged :
      {s : System} (flags : Thread → Bool) (hs : List ℕ)
      → Leased preferred valid l prefix s
      → Leased preferred valid l prefix (holding hs (record s { cancelled = flags }))
  flagged flags hs (inl v) =
      inl (record { phase = v.phase; zeros_there = v.zeros_there; none_born = v.none_born })
  flagged flags hs (inr v) = inr v

  -- What the process keeps.
  record Keeps (p : Program) : Type 0 where
    phase : Leased preferred valid l prefix p.system
    sent :
        All
          (IsAdvert p.system.heard (λ shared. shared ≡ shared_bytes preferred valid 64 prefix))
          p.system.messages

  flagged-Keeps :
      (p : Program) (s : Shared) (t : Thread) (x : Place) → Keeps p → Keeps (set_up p t s x)
  flagged-Keeps p s t x v = record { phase = flagged (flags_of s) s.opened v.phase; sent = v.sent }

  requester-Keeps : (p : Program) (r : Setup (ℕ × Bytes)) → Keeps p → Keeps (after_requester p r)
  requester-Keeps p exits v = record { phase = v.phase; sent = v.sent }
  requester-Keeps p (returns_with s) v = flagged-Keeps p s requester returned v
  requester-Keeps p (enters s (h, b)) v =
      let w = flagged-Keeps p s requester (looping (h ∷ [])) v in
      record { phase = w.phase; sent = w.sent }

  adv-Keeps : (p : Program) (r : Setup ℕ) → Keeps p → Keeps (after_adv p r)
  adv-Keeps p exits v = record { phase = v.phase; sent = v.sent }
  adv-Keeps p (returns_with s) v = flagged-Keeps p s (announcer adv) returned v
  adv-Keeps p (enters s h) v = flagged-Keeps p s (announcer adv) (looping (h ∷ [])) v

  sol-Keeps : (p : Program) (k : Option ℕ) (r : Setup ℕ) → Keeps p → Keeps (after_sol p k r)
  sol-Keeps p k exits v = record { phase = v.phase; sent = v.sent }
  sol-Keeps p k (returns_with s) v = flagged-Keeps p s (announcer sol) returned v
  sol-Keeps p k (enters s h) v = flagged-Keeps p s (announcer sol) (looping (h ∷ option_list k)) v

  module _ (whole : length prefix ≡ 16) where
    length-lease : length (lease_bytes preferred valid l prefix) ≡ 25
    length-lease = omega arith

    Move-Keeps :
        {p q : Program} {initial : Bytes}
        → Inv initial p.system
        → Fit p.system
        → Keeps p
        → (m : Move p q) → IsAsked (Delegates (lease_bytes preferred valid l prefix)) m
        → Keeps q
    Move-Keeps {p} inv fit v m d = moved m d
      where
        stepped :
            {s : System} (st : Step p.system s)
            → IsQuiet st
            → Leased preferred valid l prefix s
              × All
                  (IsAdvert s.heard (λ shared. shared ≡ shared_bytes preferred valid 64 prefix))
                  s.messages
        stepped st quiet = (
          Step-Leased preferred valid l prefix v.phase st quiet,
          Step-IsAdvert _ inv fit (Leased-prefix preferred valid l prefix inv v.phase) st v.sent,
        )

        moved :
            {q : Program} (m : Move p q)
            → IsAsked (Delegates (lease_bytes preferred valid l prefix)) m
            → Keeps q
        moved (loop_step t st e h k) d =
            let w = stepped st (kind-IsQuiet st e tt) in record { phase = w.0; sent = w.1 }
        moved (ask node_fits base ms env net {lease = given} h k o e r) d = record {
          phase = inr (ap (received_prefix p.system.prefix) (Delegates-lease d length-lease r));
          sent = v.sent;
        }
        moved (ask_exits node_fits base ms env net h k e r) d = record {
          phase = v.phase;
          sent = v.sent;
        }
        moved (loop_end t {s = s} st e h k) d =
            let w = stepped st (kind-IsQuiet st e tt) in
            record { phase = flagged s.cancelled _ w.0; sent = w.1 }
        moved (set_up_requester socket ms setsockopt bind mtu {r = r} h k w n e) d =
            requester-Keeps p r v
        moved (set_up_unnamed h k w) d = requester-Keeps p (returns_with _) v
        moved (set_up_adv socket m setsockopt {r} h k n e) d = adv-Keeps p r v
        moved (set_up_sol receiving sending x y z j {r} h k n n' e) d = sol-Keeps p sending r v
        moved (create st e h) d =
            let w = stepped st (kind-IsQuiet st e tt) in record { phase = w.0; sent = w.1 }
        moved (main_returns h o) d = record { phase = v.phase; sent = v.sent }
        moved (crash g f) d = record { phase = v.phase; sent = v.sent }
        moved (handle st e h) d =
            let w = stepped st (kind-IsQuiet st e tt) in record { phase = w.0; sent = w.1 }

    module _ (interface : Interface) (lan : Bytes) (wan : Ptr)
        (usable : HasRequest interface.request) where
      reached-Keeps :
          {q : Program} (r : Runs (launched true (zeros_of 25) interface lan wan) q)
          → AllDelegated r
          → Keeps q
      reached-Keeps stays d = record {
        phase = inl (record { phase = tt; zeros_there = refl; none_born = λ a. refl });
        sent = tt;
      }
      reached-Keeps (then_move r m) (ds, d) =
          Move-Keeps (reachable-Inv true (zeros_of 25) interface (Runs-Reach r))
            (Reach-Fit (start-Fit true (zeros_of 25) interface refl usable) (Runs-Reach r))
            (reached-Keeps r ds) m d

      pub leased_messages :
          {q : Program} (r : Runs (launched true (zeros_of 25) interface lan wan) q)
          → AllDelegated r
          → valid < 2 ^ 32
          → preferred < 2 ^ 32
          → All (Advertises q.system.heard preferred valid 64 prefix) q.system.messages
      leased_messages {q} r d hv hp =
          all_advertise q.system.heard preferred valid 64 prefix whole hv hp q.system.messages
            (reached-Keeps r d).sent
