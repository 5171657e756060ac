-- ===== src/Daemon/Threads/Leased.antt =====
-- The shared prefix while every request brings the same lease.
use pdrad.Prelude.{ℕ, ◌≡◌, ap, subst, ◌∙◌, ◌∷◌, ◌++◌, ◌⊎◌, inl, inr, true, false}
use pdrad.Memory.{Bytes, be32, le32, load8}
use pdrad.Daemon.Start.{zeros_of}
use pdrad.Daemon.Lease.{convert_preferred, convert_valid, set_length}
use pdrad.Daemon.Lease.Rounds.{lease_bytes, shared_bytes}
use pdrad.Daemon.Lease.Shared.{done-injective, preferred_converted, valid_converted, length_set}
use pdrad.Daemon.Threads.{
  Announcer, Requesting, asleep, asking, answered, preferred_set, valid_set, settled, unborn,
  System, Step, lock_requester, request, set_preferred, set_valid, set_prefix_length,
  unlock_requester, end_requester, launch, query_address, prepare, lock_announcer, copy_prefix,
  send, unlock_announcer, end_announcer, raise, hold, signal,
}
use pdrad.Daemon.Threads.Invariant.{requester_holds, announcer_holds, Inv}
use pdrad.Daemon.Threads.Preserved.{announcer_alone, requester_free}

-- That a step is no answer to a request.
abbrev pub IsQuiet : {s t : System} → Step s t → Type 0
IsQuiet (request node_fits base ms env net buffer e r) = ⊥
IsQuiet _ = Unit

module _ (preferred valid l : ℕ) (prefix : Bytes) where
  -- After a lease: between `answered` and `settled` it is converted.
  abbrev pub Settling : Requesting → Bytes → Type 0
  Settling answered q = q ≡ lease_bytes preferred valid l prefix
  Settling preferred_set q = q ≡ le32 preferred ++ be32 valid ++ l ∷ prefix
  Settling valid_set q = q ≡ shared_bytes preferred valid l prefix
  Settling _ q = q ≡ shared_bytes preferred valid 64 prefix

  -- Before the first.
  abbrev pub IsAsking : Requesting → Type 0
  IsAsking asleep = Unit
  IsAsking asking = Unit
  IsAsking Requesting.ended = Unit
  IsAsking _ = ⊥

  pub record IsUnleased (s : System) : Type 0 where
    pub phase : IsAsking s.requesting
    pub zeros_there : s.prefix ≡ zeros_of 25
    pub none_born : (a : Announcer) → s.announcing a ≡ unborn

  abbrev pub Leased : System → Type 0
  Leased s = IsUnleased s ⊎ Settling s.requesting s.prefix

  IsUnleased-step : {s t : System} → IsUnleased s → (st : Step s t) → IsQuiet st → Leased t
  IsUnleased-step v (lock_requester e c m) q =
      inl (record { phase = tt; zeros_there = v.zeros_there; none_born = v.none_born })
  IsUnleased-step v (request node_fits base ms env net buffer e r) q = absurd q
  IsUnleased-step v (set_preferred e c) q = absurd (subst IsAsking e v.phase)
  IsUnleased-step v (set_valid e c) q = absurd (subst IsAsking e v.phase)
  IsUnleased-step v (set_prefix_length e c) q = absurd (subst IsAsking e v.phase)
  IsUnleased-step v (unlock_requester e) q = absurd (subst IsAsking e v.phase)
  IsUnleased-step v (end_requester e c) q =
      inl (record { phase = tt; zeros_there = v.zeros_there; none_born = v.none_born })
  IsUnleased-step v (launch e f h n) q =
      absurd (n (done-injective (ap (λ b. load8 b 8) v.zeros_there) h))
  IsUnleased-step v (query_address a connect getsockname e c k) q =
      let u = v.none_born a in absurd cc
  IsUnleased-step v (prepare a ioctl packets dst e d h k) q = let u = v.none_born a in absurd cc
  IsUnleased-step v (lock_announcer a e m) q = let u = v.none_born a in absurd cc
  IsUnleased-step v (copy_prefix a e r) q = let u = v.none_born a in absurd cc
  IsUnleased-step v (send a ms e hl hv hf hs) q = let u = v.none_born a in absurd cc
  IsUnleased-step v (unlock_announcer a e) q = let u = v.none_born a in absurd cc
  IsUnleased-step v (end_announcer a e c) q = let u = v.none_born a in absurd cc
  IsUnleased-step v (raise flags up) q =
      inl (record { phase = v.phase; zeros_there = v.zeros_there; none_born = v.none_born })
  IsUnleased-step v (hold hs) q =
      inl (record { phase = v.phase; zeros_there = v.zeros_there; none_born = v.none_born })
  IsUnleased-step v signal q =
      inl (record { phase = v.phase; zeros_there = v.zeros_there; none_born = v.none_born })

  Settling-step :
      {s t : System} → Settling s.requesting s.prefix → (st : Step s t) → IsQuiet st → Leased t
  Settling-step {s} v (lock_requester e c m) q = inr (subst (λ r. Settling r s.prefix) e v)
  Settling-step {s} v (set_preferred e c) q =
      let at : s.prefix ≡ lease_bytes preferred valid l prefix =
        subst (λ r. Settling r s.prefix) e v in
      inr
        (done-injective (ap convert_preferred at ∙ preferred_converted preferred valid l prefix) c)
  Settling-step {s} v (set_valid e c) q =
      let at : s.prefix ≡ le32 preferred ++ be32 valid ++ l ∷ prefix =
        subst (λ r. Settling r s.prefix) e v in
      inr (done-injective (ap convert_valid at ∙ valid_converted preferred valid l prefix) c)
  Settling-step {s} v (set_prefix_length e c) q =
      let at : s.prefix ≡ shared_bytes preferred valid l prefix =
        subst (λ r. Settling r s.prefix) e v in
      inr (done-injective (ap set_length at ∙ length_set preferred valid l prefix) c)
  Settling-step {s} v (unlock_requester e) q = inr (subst (λ r. Settling r s.prefix) e v)
  Settling-step {s} v (end_requester e c) q = inr (subst (λ r. Settling r s.prefix) e v)
  Settling-step v (request node_fits base ms env net buffer e r) q = absurd q
  Settling-step v _ q = inr v

  pub Step-Leased : {s t : System} → Leased s → (st : Step s t) → IsQuiet st → Leased t
  Step-Leased (inl v) st q = IsUnleased-step v st q
  Step-Leased (inr v) st q = Settling-step v st q

  Settling-prefix :
      (r : Requesting) (q : Bytes)
      → requester_holds r ≡ false
      → Settling r q
      → q ≡ shared_bytes preferred valid 64 prefix
  Settling-prefix asleep q h v = v
  Settling-prefix Requesting.ended q h v = v
  Settling-prefix asking q h v = cc
  Settling-prefix answered q h v = cc
  Settling-prefix preferred_set q h v = cc
  Settling-prefix valid_set q h v = cc
  Settling-prefix settled q h v = cc

  -- While an announcing thread holds the mutex, the prefix is the whole lease.
  pub Leased-prefix :
      {initial : Bytes} {s : System}
      → Inv initial s
      → Leased s
      → (a : Announcer) → announcer_holds (s.announcing a) ≡ true
      → s.prefix ≡ shared_bytes preferred valid 64 prefix
  Leased-prefix inv (inl v) a h = let u = ap announcer_holds (v.none_born a) in absurd cc
  Leased-prefix {s = s} inv (inr v) a h =
      Settling-prefix s.requesting s.prefix (requester_free inv (announcer_alone inv a h).0) v
