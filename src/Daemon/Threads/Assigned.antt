-- ===== src/Daemon/Threads/Assigned.antt =====
-- The assignments of `Thread_requestDhcpPrefix` can be made on a whole prefix.
use pdrad.Prelude.{◌≡◌, refl, sym, subst, entries, ◌∙◌, length}
use pdrad.Memory.{Bytes, Run, done}
use pdrad.Memory.Laws.{entries_lem}
use pdrad.Memory.Access.{done-injective}
use pdrad.Daemon.Lease.{convert_preferred, convert_valid, set_length}

-- Each assignment can be made on 25 bytes, and leaves as many.
assigned :
    (f : Bytes → Run Bytes) (p : Bytes)
    → length p ≡ 25
    → ((q : Bytes) × (f (entries 25 p) ≡ done q) × (length q ≡ 25))
    → (q : Bytes) × (f p ≡ done q) × (length q ≡ 25)
assigned f p h k =
    subst (λ b. (q : Bytes) × (f b ≡ done q) × (length q ≡ 25)) (sym (entries_lem 25 p h)) k

pub convert_preferred_total :
    (p : Bytes) → length p ≡ 25 → (q : Bytes) × (convert_preferred p ≡ done q) × (length q ≡ 25)
unfolding convert_preferred
convert_preferred_total p h = assigned convert_preferred p h (_, refl, refl)

pub convert_valid_total :
    (p : Bytes) → length p ≡ 25 → (q : Bytes) × (convert_valid p ≡ done q) × (length q ≡ 25)
unfolding convert_valid
convert_valid_total p h = assigned convert_valid p h (_, refl, refl)

pub set_length_total :
    (p : Bytes) → length p ≡ 25 → (q : Bytes) × (set_length p ≡ done q) × (length q ≡ 25)
unfolding set_length
set_length_total p h = assigned set_length p h (_, refl, refl)

pub length-assigned :
    (f : Bytes → Run Bytes) (p : Bytes) {r : Bytes}
    → ((q : Bytes) × (f p ≡ done q) × (length q ≡ 25))
    → f p ≡ done r
    → length r ≡ 25
length-assigned f p {r} (q, e, h) k = let same : q ≡ r = done-injective (sym e ∙ k) in rw (← same) h
