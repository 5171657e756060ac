-- ===== src/Daemon/Threads/Ready.antt =====
-- The steps that can always be made: copies of the prefix, and sending.
use pdrad.Prelude.{
  ℕ, ◌+◌, ◌*◌, ◌≤◌, ◌<◌, ◌≡◌, refl, sym, ap, subst, entries, drop, ◌∙◌, ◌∷◌, length, arith,
}
use pdrad.Memory.{load8, Bytes, done, Malloc, read, load32}
use pdrad.Daemon.Advertise.{Message, send_router_adv}
use pdrad.Daemon.Threads.{
  Announcer, adv, sol, Locals, copied, sent, System, update, hardware_size, Step, send, Reach, here,
  later,
}
use pdrad.Memory.Laws.{entries_lem, entries-append-drop, length-entries}
use pdrad.Memory.Access.{load8_in, load16_in}
use pdrad.Memory.Samples.{zeroed}
use pdrad.Memory.Supply.{Plentiful}
use pdrad.Daemon.Advertise.Wire.{send_router_adv_lem}
use pdrad.Daemon.Threads.Fit.{Heard, IsLocals, Fit, locals_at}

-- All allocations succeed.
abbrev pub zeroed_all : ℕ → Malloc
zeroed_all n = zeroed

load32_in : (b : Bytes) (o : ℕ) → o + 3 < length b → (x : ℕ) × (load32 b o ≡ done x)
load32_in b o h =
    let (lo, p) = load16_in b o (omega arith) in
    let (hi, q) = load16_in b (o + 2) (omega arith) in (lo + 65536 * hi, rw (p, q))

pub read_in : (p : Bytes) → length p ≡ 25 → (q : Bytes) × (read p 9 16 ≡ done q)
read_in p h = subst (λ b. (q : Bytes) × (read b 9 16 ≡ done q)) (sym (entries_lem 25 p h)) (_, refl)

-- A message can be sent whenever the arrays have their sizes, and the allocations succeed.
pub send_total :
    {heard : Heard} (ms : ℕ → Malloc) (a : Announcer) (l : Locals) (p : Bytes)
    (prefix_length valid preferred : ℕ)
    → Plentiful ms
    → IsLocals heard a l
    → length p ≡ 16
    → (m : Message) × (send_router_adv ms l.hardware_addr l.src_addr l.dst_addr p prefix_length
          valid preferred
        ≡ done m)
send_total ms a l p prefix_length valid preferred has v h =
    let mac = entries 6 l.hardware_addr in
    let extra = drop 6 l.hardware_addr in
    let split = entries-append-drop 6 l.hardware_addr (hardware_le a v.hardware) in
    (
      _,
      ap (λ hw. send_router_adv ms hw l.src_addr l.dst_addr p prefix_length valid preferred) split
          ∙ send_router_adv_lem ms mac extra l.src_addr l.dst_addr p prefix_length valid preferred
              (length-entries 6 l.hardware_addr) v.source v.target h (has 0 32).1 (has 1 16).1
              (has 2 8).1 (has 3 8).1 (has 4 80).1,
    )
  where
    hardware_le : (a : Announcer) {n : ℕ} → n ≡ hardware_size a → 6 ≤ n
    hardware_le adv e = omega arith
    hardware_le sol e = omega arith

pub zeroed_all-Plentiful : Plentiful zeroed_all
zeroed_all-Plentiful i n = (_, refl)

-- What the step `send` reads and makes.
pub record Sendable (s : System) (l : Locals) (p : Bytes) : Type 0 where
  pub message : Message
  pub prefix_length : ℕ
  pub valid : ℕ
  pub preferred : ℕ
  pub has_length : load8 s.prefix 8 ≡ done prefix_length
  pub has_valid : load32 s.prefix 4 ≡ done valid
  pub has_preferred : load32 s.prefix 0 ≡ done preferred
  pub made :
      send_router_adv zeroed_all l.hardware_addr l.src_addr l.dst_addr p prefix_length valid
        preferred
      ≡ done message

pub sendable :
    (s : System) (a : Announcer) (l : Locals) (p : Bytes)
    → Fit s
    → s.announcing a ≡ copied l p
    → Sendable s l p
sendable s a l p fit e =
    let (v, h) = locals_at fit a (copied l p) e in
    let (n, hn) = load8_in s.prefix 8 (omega (arith, fit.size)) in
    let (valid, hv) = load32_in s.prefix 4 (omega (arith, fit.size)) in
    let (preferred, hp) = load32_in s.prefix 0 (omega (arith, fit.size)) in
    let (m, hm) = send_total zeroed_all a l p n valid preferred zeroed_all-Plentiful v h in
    record {
      message = m;
      prefix_length = n;
      valid = valid;
      preferred = preferred;
      has_length = hn;
      has_valid = hv;
      has_preferred = hp;
      made = hm;
    }

pub send-Step :
    (s : System) (a : Announcer) (l : Locals) (p : Bytes)
    → Fit s
    → s.announcing a ≡ copied l p
    → (m : Message) × Step s
        (record s { announcing = update s.announcing a sent; messages = m ∷ s.messages })
send-Step s a l p fit e =
    let w = sendable s a l p fit e in
    (w.message, send a zeroed_all e w.has_length w.has_valid w.has_preferred w.made)

pub Reach-trans : {s t u : System} → Reach s t → Reach t u → Reach s u
Reach-trans r here = r
Reach-trans r (later q st) = later (Reach-trans r q) st
