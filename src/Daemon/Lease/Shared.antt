-- ===== src/Daemon/Lease/Shared.antt =====
-- What the threads read of the shared prefix.
use pdrad.Prelude.{ℕ, ◌^◌, ◌<◌, ◌≡◌, refl, ap, ◌∙◌, ◌∷◌, ◌++◌, length}
use pdrad.Memory.{Bytes, Run, done, read, load8, load32, be32, le32}
use pdrad.Memory.Laws.{peek_all}
use pdrad.Daemon.Lease.{convert_preferred, convert_valid, set_length}
use pdrad.Daemon.Lease.Rounds.{lease_bytes, shared_bytes, word_le, word_swapped}

pub done-injective : {A : Type 0} {m : Run A} {a b : A} → m ≡ done a → m ≡ done b → b ≡ a
done-injective e h = cc

-- What the loads from `shared` give is what it was made of.
module _ (preferred valid l : ℕ) (prefix shared : Bytes)
    (e : shared ≡ shared_bytes preferred valid l prefix) where
  pub shared-prefix : {q : Bytes} → length prefix ≡ 16 → read shared 9 16 ≡ done q → q ≡ prefix
  shared-prefix h r = done-injective (ap (λ b. read b 9 16) e ∙ peek_all prefix 16 h) r

  pub shared-length : {n : ℕ} → load8 shared 8 ≡ done n → n ≡ l
  shared-length r = done-injective (ap (λ b. load8 b 8) e) r

  pub shared-valid : {n : ℕ} → valid < 2 ^ 32 → load32 shared 4 ≡ done n → n ≡ valid
  shared-valid h r = done-injective (ap (λ b. load32 b 4) e ∙ ap (λ v. done v) (word_le valid h)) r

  pub shared-preferred : {n : ℕ} → preferred < 2 ^ 32 → load32 shared 0 ≡ done n → n ≡ preferred
  shared-preferred h r =
      done-injective (ap (λ b. load32 b 0) e ∙ ap (λ v. done v) (word_le preferred h)) r

-- The assignments after the request, one by one, on what a lease has brought.
module _ (preferred valid l : ℕ) (prefix : Bytes) where
  pub preferred_converted :
      convert_preferred (lease_bytes preferred valid l prefix)
      ≡ done (le32 preferred ++ be32 valid ++ l ∷ prefix)
  unfolding convert_preferred
  preferred_converted = ap (λ p. done (p ++ be32 valid ++ l ∷ prefix)) (word_swapped preferred)

  pub valid_converted :
      convert_valid (le32 preferred ++ be32 valid ++ l ∷ prefix)
      ≡ done (shared_bytes preferred valid l prefix)
  unfolding convert_valid
  valid_converted = ap (λ v. done (le32 preferred ++ v ++ l ∷ prefix)) (word_swapped valid)

  pub length_set :
      set_length (shared_bytes preferred valid l prefix)
      ≡ done (shared_bytes preferred valid 64 prefix)
  unfolding set_length
  length_set = refl
