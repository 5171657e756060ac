-- ===== src/Daemon/Threads/Static.antt =====
-- Without DHCP nobody writes the shared prefix.
use pdrad.Prelude.{◌≡◌, refl, false, length, All}
use pdrad.Memory.{Bytes}
use pdrad.Interface.{Interface}
use pdrad.Interface.Sizes.{HasRequest}
use pdrad.Daemon.Threads.{
  Requesting, System, Step, lock_requester, request, set_preferred, set_valid, set_prefix_length,
  unlock_requester, end_requester, Reach, here, later, start,
}
use pdrad.Daemon.Threads.Fit.{Reach-Fit, start-Fit}
use pdrad.Daemon.Threads.Preserved.{reachable-Inv}
use pdrad.Daemon.Threads.Adverts.{IsAdvert, Step-IsAdvert}

-- `Thread_requestDhcpPrefix` does not run, and the prefix is the first one.
record IsStatic (prefix : Bytes) (s : System) : Type 0 where
  idle_requester : s.requesting ≡ Requesting.ended
  kept : s.prefix ≡ prefix

Step-IsStatic : {prefix : Bytes} {s t : System} → IsStatic prefix s → Step s t → IsStatic prefix t
Step-IsStatic v (lock_requester e c m) = let h = v.idle_requester in absurd cc
Step-IsStatic v (request node_fits base ms env net buffer e r) =
    let h = v.idle_requester in absurd cc
Step-IsStatic v (set_preferred e c) = let h = v.idle_requester in absurd cc
Step-IsStatic v (set_valid e c) = let h = v.idle_requester in absurd cc
Step-IsStatic v (set_prefix_length e c) = let h = v.idle_requester in absurd cc
Step-IsStatic v (unlock_requester e) = let h = v.idle_requester in absurd cc
Step-IsStatic v (end_requester e c) = let h = v.idle_requester in absurd cc
Step-IsStatic v _ = record { idle_requester = v.idle_requester; kept = v.kept }

module _ (prefix : Bytes) (interface : Interface) where
  Reach-IsStatic : {s : System} → Reach (start false prefix interface) s → IsStatic prefix s
  Reach-IsStatic here = record { idle_requester = refl; kept = refl }
  Reach-IsStatic (later r st) = Step-IsStatic (Reach-IsStatic r) st

  pub static-IsAdvert :
      {s : System}
      → length prefix ≡ 25
      → HasRequest interface.request
      → Reach (start false prefix interface) s
      → All (IsAdvert s.heard (λ shared. shared ≡ prefix)) s.messages
  static-IsAdvert size usable here = tt
  static-IsAdvert size usable (later r st) =
      Step-IsAdvert _ (reachable-Inv false prefix interface r)
        (Reach-Fit (start-Fit false prefix interface size usable) r)
        (λ a h. (Reach-IsStatic r).kept) st (static-IsAdvert size usable r)
