-- ===== src/Daemon/Threads/Rounds.antt =====
-- The steps of a thread, taken together, are the round of Daemon/Lease.
use pdrad.Prelude.{ℕ, ◌≡◌}
use pdrad.Memory.{Bytes, Run, done, fault, ◌>>=◌, Malloc, read, load8, load32}
use pdrad.Daemon.Advertise.{send_router_adv}
use pdrad.Daemon.Lease.{convert_preferred, convert_valid, set_length, settle, announce_round}

>>=-chain {ℓ} :
    {A B C : Type ℓ} (m : Run A) (f : A → Run B) (g : B → Run C) {b : B} {c : C}
    → (m >>= f) ≡ done b
    → g b ≡ done c
    → (m >>= λ x. f x >>= g) ≡ done c
>>=-chain (done x) f g h k = rw h k
>>=-chain (fault e) f g h k = cc

-- The whole of the assignments.
pub settle-steps :
    (q p r : Bytes)
    → (convert_preferred q >>= convert_valid) ≡ done p
    → set_length p ≡ done r
    → settle q ≡ done r
unfolding settle
settle-steps q p r h k = >>=-chain (convert_preferred q) convert_valid set_length h k

pub announce_round-steps :
    (ms : ℕ → Malloc) (mac src dst prefix : Bytes) {p : Bytes} {l v f : ℕ}
    → read prefix 9 16 ≡ done p
    → load8 prefix 8 ≡ done l
    → load32 prefix 4 ≡ done v
    → load32 prefix 0 ≡ done f
    → announce_round ms mac src dst prefix ≡ send_router_adv ms mac src dst p l v f
unfolding announce_round
announce_round-steps ms mac src dst prefix hp hl hv hf = rw (hp, hl, hv, hf)
