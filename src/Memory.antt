-- ===== src/Memory.antt =====
-- Memory as the C code sees it: a block is its bytes, a pointer to a block of its own is an
-- optional block (`none` is NULL), and an access outside a block is a fault.
-- Machine: aarch64 Linux, little endian, `size_t` of 64 bits (CMakeLists.txt).
pub mod Laws
pub mod Access
pub mod Ensures
pub mod Supply
pub mod Samples
use pdrad.Prelude.{
  ℕ, zero, suc, ◌+◌, ◌-◌, ◌*◌, ◌/◌, ◌%◌, ◌^◌, ◌≡◌, List, [], ◌∷◌, Option, none, some, length,
}

abbrev pub Bytes : Type 0
Bytes = List ℕ

abbrev pub Ptr : Type 0
Ptr = Option Bytes

-- `missing_argument`: a call of `printf` reads an argument that it was not given. `endless` is no fault of the code: the model of a loop ran out of fuel.
pub data Fault : Type 0 where
  null_pointer dangling_pointer out_of_bounds missing_argument endless : Fault

pub data Run {ℓ} (A : Type ℓ) : Type ℓ where
  done : A → Run A
  fault : Fault → Run A

infixl 5 ◌>>=◌
abbrev pub ◌>>=◌ {ℓ κ} : {A : Type ℓ} {B : Type κ} → Run A → (A → Run B) → Run B
done a >>= f = f a
fault e >>= f = fault e

-- What the code relies on of `malloc`: it answers NULL, or a block of the size asked for, whose
-- content is arbitrary.
pub record Malloc : Type 0 where
  pub alloc : ℕ → Ptr
  pub length-alloc : (n : ℕ) {b : Bytes} → alloc n ≡ some b → length b ≡ n

abbrev pub deref : Ptr → Run Bytes
deref none = fault Fault.null_pointer
deref (some b) = done b

-- `size_t` and `uint` sums, and a `size_t` difference.
abbrev pub add64 : ℕ → ℕ → ℕ
add64 a b = (a + b) % 2 ^ 64

abbrev pub sub64 : ℕ → ℕ → ℕ
sub64 a b = (a + 2 ^ 64 - b) % 2 ^ 64

abbrev pub add32 : ℕ → ℕ → ℕ
add32 a b = (a + b) % 2 ^ 32

-- The first `n` bytes of a block.
abbrev pub peek : Bytes → ℕ → Run Bytes
peek b zero = done []
peek [] (suc n) = fault Fault.out_of_bounds
peek (x ∷ b) (suc n) = peek b n >>= λ r. done (x ∷ r)

-- `n` bytes at an offset.
abbrev pub read : Bytes → ℕ → ℕ → Run Bytes
read b zero n = peek b n
read [] (suc o) n = fault Fault.out_of_bounds
read (x ∷ b) (suc o) n = read b o n

-- A block with its first bytes replaced.
abbrev pub overwrite : Bytes → Bytes → Run Bytes
overwrite b [] = done b
overwrite [] (d ∷ ds) = fault Fault.out_of_bounds
overwrite (x ∷ b) (d ∷ ds) = overwrite b ds >>= λ r. done (d ∷ r)

-- `memcpy` to an offset.
abbrev pub write : Bytes → ℕ → Bytes → Run Bytes
write b zero ds = overwrite b ds
write [] (suc o) ds = fault Fault.out_of_bounds
write (x ∷ b) (suc o) ds = write b o ds >>= λ r. done (x ∷ r)

-- Integers in memory, lowest byte first.
abbrev pub le16 : ℕ → Bytes
le16 v = v % 256 ∷ v / 256 % 256 ∷ []

abbrev pub le32 : ℕ → Bytes
le32 v = v % 256 ∷ v / 256 % 256 ∷ v / 65536 % 256 ∷ v / 16777216 % 256 ∷ []

-- Integers on the wire, highest byte first.
abbrev pub be16 : ℕ → Bytes
be16 v = v / 256 % 256 ∷ v % 256 ∷ []

abbrev pub be32 : ℕ → Bytes
be32 v = v / 16777216 % 256 ∷ v / 65536 % 256 ∷ v / 256 % 256 ∷ v % 256 ∷ []

abbrev pub load8 : Bytes → ℕ → Run ℕ
load8 [] o = fault Fault.out_of_bounds
load8 (x ∷ b) zero = done x
load8 (x ∷ b) (suc o) = load8 b o

abbrev pub load16 : Bytes → ℕ → Run ℕ
load16 b o = load8 b o >>= λ lo. load8 b (o + 1) >>= λ hi. done (lo + 256 * hi)

abbrev pub load32 : Bytes → ℕ → Run ℕ
load32 b o = load16 b o >>= λ lo. load16 b (o + 2) >>= λ hi. done (lo + 65536 * hi)

abbrev pub store8 : Bytes → ℕ → ℕ → Run Bytes
store8 b o v = write b o (v % 256 ∷ [])

abbrev pub store16 : Bytes → ℕ → ℕ → Run Bytes
store16 b o v = write b o (le16 v)

abbrev pub store32 : Bytes → ℕ → ℕ → Run Bytes
store32 b o v = write b o (le32 v)

-- Byte swaps of the C library on a little-endian machine; `be16toh` is the same function.
abbrev pub htobe16 : ℕ → ℕ
htobe16 v = v % 256 * 256 + v / 256 % 256

abbrev pub htobe32 : ℕ → ℕ
htobe32 v = v % 256 * 16777216 + v / 256 % 256 * 65536 + v / 65536 % 256 * 256 + v / 16777216 % 256
