-- ===== src/Daemon/Threads/Invariant.antt =====
-- What holds in every reachable state of the threads.
use pdrad.Prelude.{ℕ, ◌≡◌, Option, some, Bool, true, false, All}
use pdrad.Memory.{Bytes, done, ◌>>=◌, Malloc, read}
use pdrad.Dhcp.Packets.{Environment}
use pdrad.Interface.{Interface}
use pdrad.Daemon.Advertise.{Message}
use pdrad.Daemon.Request.{Network, Outcome, request_and_receive_dhcp}
use pdrad.Daemon.Lease.{convert_preferred, convert_valid, settle, announce_round}
use pdrad.Daemon.Threads.{
  Announcer, adv, sol, requester, announcer, Requesting, asleep, asking, answered, preferred_set,
  valid_set, settled, Locals, Announcing, locked, copied, sent, System, update, received_prefix,
  start,
}

-- Where a thread holds the mutex.
abbrev pub requester_holds : Requesting → Bool
requester_holds asleep = false
requester_holds Requesting.ended = false
requester_holds _ = true

abbrev pub announcer_holds : Announcing → Bool
announcer_holds (locked l) = true
announcer_holds (copied l p) = true
announcer_holds sent = true
announcer_holds _ = false

-- `q` is what the prefix `p` may be after a request that returns.
pub data Requested (p q : Bytes) : Type 0 where
  requested :
      (node_fits : ℕ → Bool) (base : ℕ) (ms : ℕ → Malloc) (env : Environment) (net : Network)
      (buffer : Bytes) {code : ℕ} {packet buffer' : Bytes} {lease : Option Bytes}
      → request_and_receive_dhcp node_fits base ms env net buffer
        ≡ done (Outcome.returned code packet buffer' lease)
      → q ≡ received_prefix p lease
      → Requested p q

-- The prefixes that whole rounds of `Thread_requestDhcpPrefix` make of the first one.
pub data Published (initial : Bytes) : Bytes → Type 0 where
  at_start : Published initial initial
  after_round :
      {p q r : Bytes}
      → Published initial p
      → Requested p q
      → settle q ≡ done r
      → Published initial r

-- A message that announces one such prefix.
pub data Announced (initial : Bytes) (m : Message) : Type 0 where
  announces :
      (ms : ℕ → Malloc) (l : Locals) {p : Bytes}
      → Published initial p
      → announce_round ms l.hardware_addr l.src_addr l.dst_addr p ≡ done m
      → Announced initial m

-- What a request has left, before any assignment.
abbrev pub Raw : Bytes → Bytes → Type 0
Raw initial q = (p : Bytes) × Published initial p × Requested p q

-- How far the prefix is settled.
abbrev pub Stage : Bytes → Requesting → Bytes → Type 0
Stage initial asleep p = Published initial p
Stage initial asking p = Published initial p
Stage initial answered p = Raw initial p
Stage initial preferred_set p = (q : Bytes) × Raw initial q × (convert_preferred q ≡ done p)
Stage initial valid_set p =
    (q : Bytes) × Raw initial q × ((convert_preferred q >>= convert_valid) ≡ done p)
Stage initial settled p = Published initial p
Stage initial Requesting.ended p = Published initial p

-- The copy that an announcing thread has is that of the prefix.
abbrev pub Copy : Bytes → Announcing → Type 0
Copy prefix (copied l p) = read prefix 9 16 ≡ done p
Copy prefix _ = Unit {0}

pub record Inv (initial : Bytes) (s : System) : Type 0 where
  pub requester_locks : requester_holds s.requesting ≡ true → s.mutex ≡ some requester
  pub announcer_locks :
      (a : Announcer) → announcer_holds (s.announcing a) ≡ true → s.mutex ≡ some (announcer a)
  pub stage : Stage initial s.requesting s.prefix
  pub copies : (a : Announcer) → Copy s.prefix (s.announcing a)
  pub announced : All (Announced initial) s.messages

pub start-Inv :
    (use_dhcp : Bool) (initial : Bytes) (interface : Interface)
    → Inv initial (start use_dhcp initial interface)
start-Inv true initial interface = record {
  requester_locks = λ h. cc;
  announcer_locks = λ a h. cc;
  stage = at_start;
  copies = λ a. tt;
  announced = tt;
}
start-Inv false initial interface = record {
  requester_locks = λ h. cc;
  announcer_locks = λ a h. cc;
  stage = at_start;
  copies = λ a. tt;
  announced = tt;
}

abbrev pub other : Announcer → Announcer
other adv = sol
other sol = adv

pub update-all {ℓ} :
    (P : Announcer → Announcing → Type ℓ) (f : Announcer → Announcing) (a : Announcer)
    (p : Announcing)
    → P a p
    → P (other a) (f (other a))
    → (b : Announcer) → P b (update f a p b)
update-all P f adv p h k adv = h
update-all P f adv p h k sol = k
update-all P f sol p h k adv = k
update-all P f sol p h k sol = h

pub Stage-Published :
    {initial prefix : Bytes} (r : Requesting)
    → requester_holds r ≡ false
    → Stage initial r prefix
    → Published initial prefix
Stage-Published asleep h st = st
Stage-Published asking h st = cc
Stage-Published answered h st = cc
Stage-Published preferred_set h st = cc
Stage-Published valid_set h st = cc
Stage-Published settled h st = cc
Stage-Published Requesting.ended h st = st
