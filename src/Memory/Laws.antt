-- ===== src/Memory/Laws.antt =====
-- Laws of blocks and of byte order.
use pdrad.Prelude.{
  ℕ, zero, suc, ◌+◌, ◌*◌, ◌/◌, ◌%◌, ◌≤◌, ◌<◌, ◌≡◌, refl, ap, [], ◌∷◌, ◌++◌, arith, length, entries,
  append-nil, drop,
}
use native.Mathlib.Numerals.{add-one}
use pdrad.Memory.{
  Bytes, done, fault, ◌>>=◌, peek, read, overwrite, write, le16, le32, be16, be32, htobe16, htobe32,
  load8, load16, Fault,
}

pub le16-htobe16 : (v : ℕ) → le16 (htobe16 v) ≡ be16 v
le16-htobe16 v = ground arith

pub le32-htobe32 : (v : ℕ) → le32 (htobe32 v) ≡ be32 v
le32-htobe32 v = ground arith

pub htobe16-htobe16 : (v : ℕ) → v < 65536 → htobe16 (htobe16 v) ≡ v
htobe16-htobe16 v h = omega arith

-- A block of known length, written out byte by byte.
pub entries_lem : (n : ℕ) (b : Bytes) → length b ≡ n → b ≡ entries n b
entries_lem zero [] h = refl
entries_lem zero (x ∷ b) h = absurd (omega arith)
entries_lem (suc n) [] h = absurd (omega arith)
entries_lem (suc n) (x ∷ b) h = ap (λ r. x ∷ r) (entries_lem n b (omega arith))

pub peek-append : (d r : Bytes) (n : ℕ) → length d ≡ n → peek (d ++ r) n ≡ done d
peek-append [] r zero h = refl
peek-append [] r (suc n) h = absurd (omega arith)
peek-append (x ∷ d) r zero h = absurd (omega arith)
peek-append (x ∷ d) r (suc n) h =
    ap (λ m. m >>= λ t. done (x ∷ t)) (peek-append d r n (omega arith))

pub overwrite-append :
    (old new r : Bytes) → length old ≡ length new → overwrite (old ++ r) new ≡ done (new ++ r)
overwrite-append [] [] r h = refl
overwrite-append [] (y ∷ new) r h = absurd (omega arith)
overwrite-append (x ∷ old) [] r h = absurd (omega arith)
overwrite-append (x ∷ old) (y ∷ new) r h =
    ap (λ m. m >>= λ t. done (y ∷ t)) (overwrite-append old new r (omega arith))

-- The first `n` bytes written out, and the rest.
pub entries-append-drop : (n : ℕ) (b : Bytes) → n ≤ length b → b ≡ entries n b ++ drop n b
entries-append-drop zero b h = refl
entries-append-drop (suc n) [] h = absurd (omega arith)
entries-append-drop (suc n) (x ∷ b) h = ap (λ r. x ∷ r) (entries-append-drop n b (omega arith))

-- A copy of a whole source over a block of the same length leaves the source.
pub overwrite_all : (old new : Bytes) → length old ≡ length new → overwrite old new ≡ done new
overwrite_all old new h =
    let p : overwrite (old ++ []) new ≡ done (new ++ []) = overwrite-append old new [] h in
    rw (append-nil old, append-nil new) at p

-- A copy that is longer than the block is a fault.
pub overwrite_overrun :
    (old new : Bytes) → length old < length new → overwrite old new ≡ fault Fault.out_of_bounds
overwrite_overrun [] [] h = absurd (omega arith)
overwrite_overrun [] (y ∷ new) h = refl
overwrite_overrun (x ∷ old) [] h = absurd (omega arith)
overwrite_overrun (x ∷ old) (y ∷ new) h =
    ap (λ m. m >>= λ t. done (y ∷ t)) (overwrite_overrun old new (omega arith))

pub length-entries : (n : ℕ) (b : Bytes) → length (entries n b) ≡ n
length-entries zero b = refl
length-entries (suc n) [] = ap suc (length-entries n [])
length-entries (suc n) (x ∷ b) = ap suc (length-entries n b)

-- A copy into the middle of a block.
pub write-append :
    (pre old new post : Bytes) (o : ℕ)
    → length pre ≡ o
    → length old ≡ length new
    → write (pre ++ (old ++ post)) o new ≡ done (pre ++ (new ++ post))
write-append [] old new post zero h k = overwrite-append old new post k
write-append [] old new post (suc o) h k = absurd (omega arith)
write-append (x ∷ pre) old new post zero h k = absurd (omega arith)
write-append (x ∷ pre) old new post (suc o) h k =
    ap (λ m. m >>= λ t. done (x ∷ t)) (write-append pre old new post o (omega arith) k)

pub write_overrun :
    (pre old new : Bytes) (o : ℕ)
    → length pre ≡ o
    → length old < length new
    → write (pre ++ old) o new ≡ fault Fault.out_of_bounds
write_overrun [] old new zero h k = overwrite_overrun old new k
write_overrun [] old new (suc o) h k = absurd (omega arith)
write_overrun (x ∷ pre) old new zero h k = absurd (omega arith)
write_overrun (x ∷ pre) old new (suc o) h k =
    ap (λ m. m >>= λ t. done (x ∷ t)) (write_overrun pre old new o (omega arith) k)

pub load8-append :
    (pre : Bytes) (x : ℕ) (post : Bytes) (o : ℕ)
    → length pre ≡ o
    → load8 (pre ++ x ∷ post) o ≡ done x
load8-append [] x post zero h = refl
load8-append [] x post (suc o) h = absurd (omega arith)
load8-append (y ∷ pre) x post zero h = absurd (omega arith)
load8-append (y ∷ pre) x post (suc o) h = load8-append pre x post o (omega arith)

pub load8_next :
    (pre : Bytes) (x y : ℕ) (post : Bytes) (o : ℕ)
    → length pre ≡ o
    → load8 (pre ++ x ∷ y ∷ post) (suc o) ≡ done y
load8_next [] x y post zero h = refl
load8_next [] x y post (suc o) h = absurd (omega arith)
load8_next (z ∷ pre) x y post zero h = absurd (omega arith)
load8_next (z ∷ pre) x y post (suc o) h = load8_next pre x y post o (omega arith)

pub load16-append :
    (pre : Bytes) (x y : ℕ) (post : Bytes) (o : ℕ)
    → length pre ≡ o
    → load16 (pre ++ x ∷ y ∷ post) o ≡ done (x + 256 * y)
load16-append pre x y post o h =
    rw (load8-append pre x (y ∷ post) o h, add-one, load8_next pre x y post o h)

pub peek_all : (d : Bytes) (n : ℕ) → length d ≡ n → peek d n ≡ done d
peek_all d n h = let p : peek (d ++ []) n ≡ done d = peek-append d [] n h in rw (append-nil d) at p

-- The two bytes of a 16-bit number make it up.
pub halves16 : (n : ℕ) → n < 65536 → n % 256 + 256 * (n / 256 % 256) ≡ n
halves16 n h = omega arith

-- A read past the end is a fault.
pub peek_overrun : (d : Bytes) (n : ℕ) → length d < n → peek d n ≡ fault Fault.out_of_bounds
peek_overrun d zero h = absurd (omega arith)
peek_overrun [] (suc n) h = refl
peek_overrun (x ∷ d) (suc n) h = ap (λ m. m >>= λ t. done (x ∷ t)) (peek_overrun d n (omega arith))

pub read-append : (pre b : Bytes) (o n : ℕ) → length pre ≡ o → read (pre ++ b) o n ≡ peek b n
read-append [] b zero n h = refl
read-append [] b (suc o) n h = absurd (omega arith)
read-append (x ∷ pre) b zero n h = absurd (omega arith)
read-append (x ∷ pre) b (suc o) n h = read-append pre b o n (omega arith)
