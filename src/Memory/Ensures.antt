-- ===== src/Memory/Ensures.antt =====
-- What holds of the result of a run that returns, as a family with rules for each construct.
use pdrad.Prelude.{
  ℕ, zero, suc, ◌≡◌, refl, Bool, true, false, if◌then◌else◌, [], ◌∷◌, arith, length, subst,
}
use pdrad.Memory.{Bytes, Run, done, fault, Fault, ◌>>=◌, peek, read, overwrite, write}

pub data Ensures {ℓ κ} {A : Type ℓ} (P : A → Type κ) : Run A → Type (ℓ ⊔ κ) where
  returns : {a : A} → P a → Ensures P (done a)
  faults : {e : Fault} → Ensures P (fault e)

module _ {ℓ κ} {A : Type ℓ} where
  pub Ensures-if :
      {P : A → Type κ} (b : Bool) {m n : Run A}
      → Ensures P m
      → Ensures P n
      → Ensures P (if b then m else n)
  Ensures-if true h k = h
  Ensures-if false h k = k

  pub Ensures-done : {P : A → Type κ} {a : A} → Ensures P (done a) → P a
  Ensures-done (returns h) = h

  pub Ensures-eq : {P : A → Type κ} {m : Run A} {a : A} → Ensures P m → m ≡ done a → P a
  Ensures-eq {P} h e = Ensures-done (subst (Ensures P) e h)

pub Ensures->>= {ℓ ℓ' κ} :
    {A : Type ℓ} {B : Type ℓ'} {P : B → Type κ} (m : Run A) {f : A → Run B}
    → ((a : A) → Ensures P (f a))
    → Ensures P (m >>= f)
Ensures->>= (done a) h = h a
Ensures->>= (fault e) h = faults

pub Ensures->>=_of {ℓ ℓ' κ κ'} :
    {A : Type ℓ} {B : Type ℓ'} {Q : A → Type κ'} {P : B → Type κ} {m : Run A} {f : A → Run B}
    → Ensures Q m
    → ((a : A) → Q a → Ensures P (f a))
    → Ensures P (m >>= f)
Ensures->>=_of (returns {a} q) h = h a q
Ensures->>=_of faults h = faults

pub length-peek : (b : Bytes) (n : ℕ) → Ensures (λ d. length d ≡ n) (peek b n)
length-peek b zero = returns refl
length-peek [] (suc n) = faults
length-peek (x ∷ b) (suc n) = Ensures->>=_of (length-peek b n) (λ d h. returns (omega arith))

pub length-read : (b : Bytes) (o n : ℕ) → Ensures (λ d. length d ≡ n) (read b o n)
length-read b zero n = length-peek b n
length-read [] (suc o) n = faults
length-read (x ∷ b) (suc o) n = length-read b o n

length-overwrite : (b d : Bytes) → Ensures (λ r. length r ≡ length b) (overwrite b d)
length-overwrite b [] = returns refl
length-overwrite [] (y ∷ d) = faults
length-overwrite (x ∷ b) (y ∷ d) =
    Ensures->>=_of (length-overwrite b d) (λ r h. returns (omega arith))

pub length-write :
    (b : Bytes) (o : ℕ) (d : Bytes) → Ensures (λ r. length r ≡ length b) (write b o d)
length-write b zero d = length-overwrite b d
length-write [] (suc o) d = faults
length-write (x ∷ b) (suc o) d = Ensures->>=_of (length-write b o d) (λ r h. returns (omega arith))
