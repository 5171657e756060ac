-- ===== src/Daemon/Threads/Preserved.antt =====
-- Every step keeps the invariant.
use pdrad.Prelude.{
  ◌≡◌, ◌≢◌, refl, subst, ◌∙◌, List, ◌∷◌, ◌++◌, Option, none, some, Bool, true, false, All,
}
use pdrad.Memory.{Bytes}
use pdrad.Interface.{Interface, no_address, get_link_local_address}
use pdrad.Daemon.Advertise.{Message}
use pdrad.Daemon.Threads.{
  Announcer, adv, sol, Thread, requester, announcer, Requesting, asleep, asking, answered,
  preferred_set, valid_set, settled, Announcing, addressed, unborn, idle, ready, locked, copied,
  sent, hold, System, update, received_prefix, Step, lock_requester, request, set_preferred,
  set_valid, set_prefix_length, unlock_requester, end_requester, launch, query_address, prepare,
  lock_announcer, copy_prefix, send, unlock_announcer, end_announcer, raise, signal, Reach, here,
  later, start,
}
use pdrad.Daemon.Threads.Invariant.{
  requester_holds, announcer_holds, requested, Published, after_round, Announced, announces, Stage,
  Copy, Inv, start-Inv, other, update-all, Stage-Published,
}
use pdrad.Daemon.Threads.Rounds.{settle-steps, announce_round-steps}

pub false_of : (b : Bool) → (b ≡ true → ⊥) → b ≡ false
false_of true h = absurd (h refl)
false_of false h = refl

Copy-free : (prefix : Bytes) (p : Announcing) → announcer_holds p ≡ false → Copy prefix p
Copy-free prefix unborn h = tt
Copy-free prefix idle h = tt
Copy-free prefix Announcing.ended h = tt
Copy-free prefix (addressed src) h = tt
Copy-free prefix (ready l) h = tt
Copy-free prefix (locked l) h = tt
Copy-free prefix (copied l p) h = cc
Copy-free prefix sent h = tt

Inv-prepared :
    {initial : Bytes} {s : System}
    → Inv initial s
    → (i : Interface) (heard : List (Option (Bytes × Bytes)))
    → Inv initial (record s { interface = i; heard = heard })
Inv-prepared inv i heard = record {
  requester_locks = inv.requester_locks;
  announcer_locks = inv.announcer_locks;
  stage = inv.stage;
  copies = inv.copies;
  announced = inv.announced;
}

module _ {initial : Bytes} {s : System} (inv : Inv initial s) where
  pub requester_free : s.mutex ≢ some requester → requester_holds s.requesting ≡ false
  requester_free h = false_of _ (λ held. h (inv.requester_locks held))

  pub announcer_free :
      (a : Announcer) → s.mutex ≢ some (announcer a) → announcer_holds (s.announcing a) ≡ false
  announcer_free a h = false_of _ (λ held. h (inv.announcer_locks a held))

  -- While the requesting thread does not hold the mutex, the prefix is whole.
  pub prefix-Published : s.mutex ≢ some requester → Published initial s.prefix
  prefix-Published h = Stage-Published s.requesting (requester_free h) inv.stage

  -- The requesting thread moves while no other holds the mutex.
  requester_moves :
      (m : Option Thread) (p : Bytes) (r : Requesting)
      → ((a : Announcer) → s.mutex ≢ some (announcer a))
      → (requester_holds r ≡ true → m ≡ some requester)
      → Stage initial r p
      → Inv initial (record s { mutex = m; prefix = p; requesting = r })
  requester_moves m p r alone locks st = record {
    requester_locks = locks;
    announcer_locks = λ a h. absurd (alone a (inv.announcer_locks a h));
    stage = st;
    copies = λ a. Copy-free p (s.announcing a) (announcer_free a (alone a));
    announced = inv.announced;
  }

  -- An announcing thread moves, and the others do as before.
  announcer_moves :
      (m : Option Thread) (a : Announcer) (q : Announcing) (ms : List Message)
      → (requester_holds s.requesting ≡ true → m ≡ some requester)
      → (announcer_holds q ≡ true → m ≡ some (announcer a))
      → (announcer_holds (s.announcing (other a)) ≡ true → m ≡ some (announcer (other a)))
      → Copy s.prefix q
      → All (Announced initial) ms
      → Inv initial (record s { mutex = m; announcing = update s.announcing a q; messages = ms })
  announcer_moves m a q ms hr hq ho hc told = record {
    requester_locks = hr;
    announcer_locks =
        update-all (λ b x. announcer_holds x ≡ true → m ≡ some (announcer b)) s.announcing a q hq
          ho;
    stage = inv.stage;
    copies = update-all (λ b x. Copy s.prefix x) s.announcing a q hc (inv.copies (other a));
    announced = told;
  }

  pub requester_alone :
      requester_holds s.requesting ≡ true → (a : Announcer) → s.mutex ≢ some (announcer a)
  requester_alone h a k = let l = inv.requester_locks h in cc

  Stage-at : (r : Requesting) → s.requesting ≡ r → Stage initial r s.prefix
  Stage-at r e = subst (λ x. Stage initial x s.prefix) e inv.stage

  -- The thread that holds the mutex is `a`.
  pub announcer_alone :
      (a : Announcer)
      → announcer_holds (s.announcing a) ≡ true
      → (s.mutex ≢ some requester) × (announcer_holds (s.announcing (other a)) ≡ false)
  announcer_alone adv h =
      let l = inv.announcer_locks adv h in ((λ k. cc), announcer_free sol (λ k. cc))
  announcer_alone sol h =
      let l = inv.announcer_locks sol h in ((λ k. cc), announcer_free adv (λ k. cc))

  -- A thread that holds the mutex moves.
  holder_moves :
      (m : Option Thread) (a : Announcer) (q : Announcing) (ms : List Message)
      → announcer_holds (s.announcing a) ≡ true
      → (announcer_holds q ≡ true → m ≡ some (announcer a))
      → Copy s.prefix q
      → All (Announced initial) ms
      → Inv initial (record s { mutex = m; announcing = update s.announcing a q; messages = ms })
  holder_moves m a q ms h hq hc told =
      let (not_requester, not_other) = announcer_alone a h in
      let free = requester_free not_requester in
      announcer_moves m a q ms (λ k. cc) hq (λ k. cc) hc told

  -- A thread moves while it does not hold the mutex and does not take it.
  free_moves :
      (a : Announcer) (q : Announcing)
      → announcer_holds q ≡ false
      → Copy s.prefix q
      → Inv initial (record s { announcing = update s.announcing a q })
  free_moves a q h hc =
      announcer_moves s.mutex a q s.messages inv.requester_locks (λ k. cc)
        (inv.announcer_locks (other a)) hc inv.announced

  held_at :
      (a : Announcer) (x : Announcing)
      → s.announcing a ≡ x
      → announcer_holds x ≡ true
      → announcer_holds (s.announcing a) ≡ true
  held_at a x e h = rw e h

  Step-Inv : {t : System} → Step s t → Inv initial t
  Step-Inv (lock_requester e c m) =
      requester_moves (some requester) s.prefix asking (λ a k. cc) (λ h. refl) (Stage-at asleep e)
  Step-Inv (request node_fits base ms env net buffer {lease = lease} e r) =
      let locks = inv.requester_locks (rw e refl) in
      requester_moves s.mutex (received_prefix s.prefix lease) answered (λ a k. cc) (λ h. locks)
        (s.prefix, Stage-at asking e, requested node_fits base ms env net buffer r refl)
  Step-Inv (set_preferred {p} e c) =
      let locks = inv.requester_locks (rw e refl) in
      requester_moves s.mutex p preferred_set (λ a k. cc) (λ h. locks)
        (s.prefix, Stage-at answered e, c)
  Step-Inv (set_valid {p} e c) =
      let locks = inv.requester_locks (rw e refl) in
      let (q, raw, set) = Stage-at preferred_set e in
      requester_moves s.mutex p valid_set (λ a k. cc) (λ h. locks) (q, raw, rw set c)
  Step-Inv (set_prefix_length {p} e c) =
      let locks = inv.requester_locks (rw e refl) in
      let (q, (first, published, asked), set) = Stage-at valid_set e in
      requester_moves s.mutex p settled (λ a k. cc) (λ h. locks)
        (after_round published asked (settle-steps q s.prefix p set c))
  Step-Inv (unlock_requester e) =
      requester_moves none s.prefix asleep (requester_alone (rw e refl)) (λ h. cc)
        (Stage-at settled e)
  Step-Inv (end_requester e c) = record {
    requester_locks = λ h. cc;
    announcer_locks = inv.announcer_locks;
    stage = Stage-at asleep e;
    copies = inv.copies;
    announced = inv.announced;
  }
  Step-Inv (launch e f h n) = record {
    requester_locks = inv.requester_locks;
    announcer_locks = λ a k. cc;
    stage = inv.stage;
    copies = λ a. tt;
    announced = inv.announced;
  }
  Step-Inv (query_address a connect getsockname e c k) =
      let found = get_link_local_address s.interface no_address connect getsockname in
      Inv-prepared (free_moves a (addressed found.1) refl tt) found.2 s.heard
  Step-Inv (prepare a ioctl packets dst {interface' = i} e d h q) =
      Inv-prepared (free_moves a (ready _) refl tt) i (packets ++ s.heard)
  Step-Inv (lock_announcer a {l} e m) =
      announcer_moves (some (announcer a)) a (locked l) s.messages
        (λ h. let l = inv.requester_locks h in cc) (λ h. refl)
        (λ h. let l = inv.announcer_locks (other a) h in cc) tt inv.announced
  Step-Inv (copy_prefix a {l} {p} e r) =
      let h = held_at a (locked l) e refl in
      holder_moves s.mutex a (copied l p) s.messages h (λ k. inv.announcer_locks a h) r
        inv.announced
  Step-Inv (send a ms {l} {p} {m} e hl hv hf hs) =
      let h = held_at a (copied l p) e refl in
      let copy : Copy s.prefix (copied l p) = subst (Copy s.prefix) e (inv.copies a) in
      holder_moves s.mutex a sent (m ∷ s.messages) h (λ k. inv.announcer_locks a h) tt
        (
          announces ms l (prefix-Published ((announcer_alone a h).0)) (
              announce_round-steps ms l.hardware_addr l.src_addr l.dst_addr s.prefix copy hl hv hf
              ∙ hs),
          inv.announced,
        )
  Step-Inv (unlock_announcer a e) =
      holder_moves none a idle s.messages (held_at a sent e refl) (λ k. cc) tt inv.announced
  Step-Inv (end_announcer a e c) = free_moves a Announcing.ended refl tt
  Step-Inv (raise flags up) = record {
    requester_locks = inv.requester_locks;
    announcer_locks = inv.announcer_locks;
    stage = inv.stage;
    copies = inv.copies;
    announced = inv.announced;
  }
  Step-Inv (hold hs) = Inv-prepared inv (record s.interface { others = hs }) s.heard
  Step-Inv signal = record {
    requester_locks = inv.requester_locks;
    announcer_locks = inv.announcer_locks;
    stage = inv.stage;
    copies = inv.copies;
    announced = inv.announced;
  }

Reach-Inv : {initial : Bytes} {s t : System} → Inv initial s → Reach s t → Inv initial t
Reach-Inv inv here = inv
Reach-Inv inv (later r st) = Step-Inv (Reach-Inv inv r) st

module _ (use_dhcp : Bool) (initial : Bytes) (interface : Interface) {s : System}
    (r : Reach (start use_dhcp initial interface) s) where
  pub reachable-Inv : Inv initial s
  reachable-Inv = Reach-Inv (start-Inv use_dhcp initial interface) r

  -- In every interleaving of the three threads, `main` and the signal handler from the start, with
  -- DHCP or with a static prefix, whatever the kernel and the network answer, each message that
  -- was sent is what a round of `Thread_sendRouterAdv` makes, for some addresses, of a prefix that
  -- whole rounds of `Thread_requestDhcpPrefix` make of the first one: no message announces a
  -- prefix that a round has only in part converted.
  pub threads-Announced : All (Announced initial) s.messages
  threads-Announced = reachable-Inv.announced
