-- ===== src/Memory/Access.antt =====
-- Accesses inside a block succeed and keep its length; what is stored is loaded again.
use native.Mathlib.Numerals.{add-one}
use native.Mathlib.Decide.{dec_lt}
use pdrad.Prelude.{
  ℕ, zero, suc, ◌+◌, ◌*◌, ◌/◌, ◌%◌, ◌≤◌, ◌<◌, ◌≡◌, ◌≢◌, refl, ap, Bool, true, false, if◌then◌else◌,
  [], ◌∷◌, ◌++◌, arith, length,
}
use pdrad.Memory.{
  Bytes, Run, done, fault, Fault, ◌>>=◌, peek, read, overwrite, write, le16, load8, load16, store16,
}

-- A run that is no `endless` fault.
abbrev pub Ends {ℓ} : {A : Type ℓ} → Run A → Type 0
Ends (done a) = Unit
Ends (fault Fault.null_pointer) = Unit
Ends (fault Fault.dangling_pointer) = Unit
Ends (fault Fault.out_of_bounds) = Unit
Ends (fault Fault.missing_argument) = Unit
Ends (fault Fault.endless) = ⊥

pub Ends->>= {ℓ κ} :
    {A : Type ℓ} {B : Type κ} (r : Run A) (f : A → Run B)
    → Ends r
    → ((a : A) → r ≡ done a → Ends (f a))
    → Ends (r >>= f)
Ends->>= (done a) f h k = k a refl
Ends->>= (fault Fault.null_pointer) f h k = tt
Ends->>= (fault Fault.dangling_pointer) f h k = tt
Ends->>= (fault Fault.out_of_bounds) f h k = tt
Ends->>= (fault Fault.missing_argument) f h k = tt
Ends->>= (fault Fault.endless) f h k = h

-- Inversion of a successful step.
pub >>=-eq-done {ℓ κ} :
    {A : Type ℓ} {B : Type κ} (r : Run A) (f : A → Run B) {b : B}
    → (r >>= f) ≡ done b
    → (a : A) × (r ≡ done a) × (f a ≡ done b)
>>=-eq-done (done a) f h = (a, refl, h)
>>=-eq-done (fault e) f h = cc

pub done-injective {ℓ} : {A : Type ℓ} {a b : A} → done a ≡ done b → a ≡ b
done-injective h = cc

pub Ends-load8 : (b : Bytes) (o : ℕ) → Ends (load8 b o)
Ends-load8 [] o = tt
Ends-load8 (x ∷ b) zero = tt
Ends-load8 (x ∷ b) (suc o) = Ends-load8 b o

pub Ends-load16 : (b : Bytes) (o : ℕ) → Ends (load16 b o)
Ends-load16 b o =
    Ends->>= (load8 b o) _ (Ends-load8 b o)
      λ x e. Ends->>= (load8 b (o + 1)) _ (Ends-load8 b (o + 1)) λ y e'. tt

pub Ends-overwrite : (b d : Bytes) → Ends (overwrite b d)
Ends-overwrite b [] = tt
Ends-overwrite [] (y ∷ d) = tt
Ends-overwrite (x ∷ b) (y ∷ d) = Ends->>= (overwrite b d) _ (Ends-overwrite b d) λ r e. tt

pub Ends-write : (b : Bytes) (o : ℕ) (d : Bytes) → Ends (write b o d)
Ends-write [] zero d = Ends-overwrite [] d
Ends-write (x ∷ b) zero d = Ends-overwrite (x ∷ b) d
Ends-write [] (suc o) d = tt
Ends-write (x ∷ b) (suc o) d = Ends->>= (write b o d) _ (Ends-write b o d) λ r e. tt

pub load8_in : (b : Bytes) (o : ℕ) → o < length b → (x : ℕ) × (load8 b o ≡ done x)
load8_in [] o h = absurd (omega arith)
load8_in (x ∷ b) zero h = (x, refl)
load8_in (x ∷ b) (suc o) h = load8_in b o (omega arith)

pub load16_in : (b : Bytes) (o : ℕ) → o + 1 < length b → (x : ℕ) × (load16 b o ≡ done x)
load16_in b o h =
    let (lo, p) = load8_in b o (omega arith) in
    let (hi, q) = load8_in b (o + 1) h in (lo + 256 * hi, rw (p, q))

pub load8_out : (b : Bytes) (o : ℕ) → length b ≤ o → load8 b o ≡ fault Fault.out_of_bounds
load8_out [] o h = refl
load8_out (x ∷ b) zero h = absurd (omega arith)
load8_out (x ∷ b) (suc o) h = load8_out b o (omega arith)

pub load16_out : (b : Bytes) (o : ℕ) → length b ≤ o + 1 → load16 b o ≡ fault Fault.out_of_bounds
load16_out b o h = elim (dec_lt o (length b)) [
  | yes inside ↦ let (lo, p) = load8_in b o inside in rw (p, load8_out b (o + 1) h)
  | no past ↦ rw (load8_out b o (omega arith))
]

overwrite_in :
    (b d : Bytes)
    → length d ≤ length b
    → (b' : Bytes) × (overwrite b d ≡ done b') × (length b' ≡ length b)
overwrite_in b [] h = (b, refl, refl)
overwrite_in [] (y ∷ d) h = absurd (omega arith)
overwrite_in (x ∷ b) (y ∷ d) h =
    let (r, p, q) = overwrite_in b d (omega arith) in (y ∷ r, rw p, ap suc q)

pub write_in :
    (b : Bytes) (o : ℕ) (d : Bytes)
    → o + length d ≤ length b
    → (b' : Bytes) × (write b o d ≡ done b') × (length b' ≡ length b)
write_in [] zero d h = overwrite_in [] d (omega arith)
write_in (x ∷ b) zero d h = overwrite_in (x ∷ b) d (omega arith)
write_in [] (suc o) d h = absurd (omega arith)
write_in (x ∷ b) (suc o) d h =
    let (r, p, q) = write_in b o d (omega arith) in (x ∷ r, rw p, ap suc q)

peek_in : (b : Bytes) (n : ℕ) → n ≤ length b → (d : Bytes) × (peek b n ≡ done d)
peek_in b zero h = ([], refl)
peek_in [] (suc n) h = absurd (omega arith)
peek_in (x ∷ b) (suc n) h = let (d, p) = peek_in b n (omega arith) in (x ∷ d, rw p)

pub read_in : (b : Bytes) (o n : ℕ) → o + n ≤ length b → (d : Bytes) × (read b o n ≡ done d)
read_in b zero n h = peek_in b n (omega arith)
read_in [] (suc o) zero h = absurd (omega arith)
read_in [] (suc o) (suc n) h = absurd (omega arith)
read_in (x ∷ b) (suc o) n h = read_in b o n (omega arith)

-- The two halves that a 16-bit store leaves.
load8-store16 :
    (b : Bytes) (o v : ℕ) {b' : Bytes}
    → store16 b o v ≡ done b'
    → (load8 b' o ≡ done (v % 256)) × (load8 b' (suc o) ≡ done (v / 256 % 256))
load8-store16 [] zero v e = cc
load8-store16 (x ∷ []) zero v e = cc
load8-store16 (x ∷ y ∷ b) zero v {b'} e =
    let p : le16 v ++ b ≡ b' = done-injective e in rw (← p) (refl, refl)
load8-store16 [] (suc o) v e = cc
load8-store16 (x ∷ b) (suc o) v {b'} e =
    let (r, p, q) = >>=-eq-done (store16 b o v) _ e in
    let t : x ∷ r ≡ b' = done-injective q in rw (← t) (load8-store16 b o v p)

pub load16-store16 :
    (b : Bytes) (o v : ℕ) {b' : Bytes}
    → store16 b o v ≡ done b'
    → load16 b' o ≡ done (v % 256 + 256 * (v / 256 % 256))
load16-store16 b o v e = let (p, q) = load8-store16 b o v e in rw (p, add-one, q)

pub Ends-if {ℓ} :
    {A : Type ℓ} (t : Bool) (x y : Run A) → Ends x → Ends y → Ends (if t then x else y)
Ends-if true x y h k = h
Ends-if false x y h k = k

pub Ends→ne {ℓ} : {A : Type ℓ} (r : Run A) → Ends r → r ≢ fault Fault.endless
Ends→ne (done a) h e = cc
Ends→ne (fault Fault.null_pointer) h e = cc
Ends→ne (fault Fault.dangling_pointer) h e = cc
Ends→ne (fault Fault.out_of_bounds) h e = cc
Ends→ne (fault Fault.missing_argument) h e = cc
Ends→ne (fault Fault.endless) h e = h
