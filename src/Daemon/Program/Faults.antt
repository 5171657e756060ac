-- ===== src/Daemon/Program/Faults.antt =====
-- What it takes for a thread of the process to run into a fault.
use pdrad.Prelude.{
  ℕ, ◌≤◌, ◌<◌, ◌≡◌, refl, ap, subst, ◌∙◌, ◌⊎◌, inl, inr, Option, none, some, Bool, true, false,
  length, All, arith,
}
use pdrad.Memory.{Bytes, Ptr, Run, done, fault, Fault}
use pdrad.Memory.Supply.{Supplies, Plentiful}
use pdrad.Interface.{Interface}
use pdrad.Interface.Sizes.{HasRequest, IsUnion, get_hardware_address_in}
use pdrad.Daemon.Start.{zeros_of}
use pdrad.Daemon.Listen.{buffer_size}
use pdrad.Daemon.Listen.Safe.{FitsBuffer, receive_src_addr_in}
use pdrad.Daemon.Request.Delegated.{Delegates, Delegates-answered, Unsent, Unsent-returned}
use pdrad.Daemon.Setup.{Setup, exits, returns_with, enters}
use pdrad.Daemon.Setup.Safe.{setup_adv_in, setup_requester_in, setup_sol_in, Succeeds}
use pdrad.Daemon.Threads.{Announcer, adv, sol, requester, announcer, copied, hardware_size}
use pdrad.Daemon.Threads.Fit.{Fit, Reach-Fit, start-Fit, locals_at}
use pdrad.Daemon.Threads.Ready.{send_total}
use pdrad.Daemon.Program.{
  Place, shared, absent, created, in_request, in_query, in_listen, in_send, in_requester_set_up,
  in_unnamed_set_up, in_adv_set_up, in_sol_set_up, Faulting, Program, Move, loop_end,
  set_up_requester, set_up_unnamed, set_up_adv, set_up_sol, Runs, stays, then_move, launched,
  after_requester, after_adv, after_sol,
}
use pdrad.Daemon.Program.Simulation.{Runs-Reach}

-- Nothing from outside causes the fault: memory is there, the kernel answers with a whole union and with
-- no more bytes than a buffer has, the `bind` of the thread that listens succeeds, and a request is
-- answered with a lease, or is not sent.
abbrev pub IsBenign : {p : Program} {e : Fault} → Faulting p e → Type 0
IsBenign {p} (in_request node_fits base ms env net h o a r) =
    ((lease : Bytes) × (length lease ≡ 25) × Delegates lease node_fits base ms env net p.buffer)
    ⊎ Unsent ms env net
IsBenign (in_query a ioctl h s r) = IsUnion ioctl
IsBenign (in_listen buffer packets i h s r) = All (FitsBuffer buffer_size) packets
IsBenign (in_send a ms h s hl hv hp r) = Plentiful ms
IsBenign (in_requester_set_up socket ms setsockopt bind mtu h w n r) = Plentiful ms
IsBenign (in_unnamed_set_up k h w n) = Unit
IsBenign (in_adv_set_up socket m setsockopt h n r) = Supplies m
IsBenign (in_sol_set_up receiving sending b c d j h n n' r) = Succeeds j

-- The name of the WAN interface, which only DHCP needs, fits a `struct ifreq`.
abbrev pub IsNamed : Bool → Ptr → Type 0
IsNamed false wan = Unit
IsNamed true none = ⊥
IsNamed true (some name) = length name < 40

-- What no move changes: the names, and that without DHCP nothing is requested.
record IsKept (use_dhcp : Bool) (lan : Bytes) (wan : Ptr) (p : Program) : Type 0 where
  lan_kept : p.lan ≡ lan
  wan_kept : p.wan ≡ wan
  no_requests : use_dhcp ≡ false → p.place requester ≡ absent

module _ {use_dhcp : Bool} {lan : Bytes} {wan : Ptr} where
  keeps_names :
      {p q : Program}
      → IsKept use_dhcp lan wan p
      → q.lan ≡ p.lan
      → q.wan ≡ p.wan
      → (p.place requester ≡ absent → q.place requester ≡ absent)
      → IsKept use_dhcp lan wan q
  keeps_names v el ew k = record {
    lan_kept = el ∙ v.lan_kept;
    wan_kept = ew ∙ v.wan_kept;
    no_requests = λ u. k (v.no_requests u);
  }

  requester-IsKept :
      (p : Program) (r : Setup (ℕ × Bytes))
      → p.place requester ≡ created
      → IsKept use_dhcp lan wan p
      → IsKept use_dhcp lan wan (after_requester p r)
  requester-IsKept p exits h v = keeps_names v refl refl (λ g. g)
  requester-IsKept p (returns_with s) h v = keeps_names v refl refl (λ g. cc)
  requester-IsKept p (enters s (k, b)) h v = keeps_names v refl refl (λ g. cc)

  adv-IsKept :
      (p : Program) (r : Setup ℕ)
      → IsKept use_dhcp lan wan p
      → IsKept use_dhcp lan wan (after_adv p r)
  adv-IsKept p exits v = keeps_names v refl refl (λ g. g)
  adv-IsKept p (returns_with s) v = keeps_names v refl refl (λ g. g)
  adv-IsKept p (enters s k) v = keeps_names v refl refl (λ g. g)

  sol-IsKept :
      (p : Program) (o : Option ℕ) (r : Setup ℕ)
      → IsKept use_dhcp lan wan p
      → IsKept use_dhcp lan wan (after_sol p o r)
  sol-IsKept p o exits v = keeps_names v refl refl (λ g. g)
  sol-IsKept p o (returns_with s) v = keeps_names v refl refl (λ g. g)
  sol-IsKept p o (enters s k) v = keeps_names v refl refl (λ g. g)

  Move-IsKept : {p q : Program} → IsKept use_dhcp lan wan p → Move p q → IsKept use_dhcp lan wan q
  Move-IsKept {p} v (set_up_requester socket ms setsockopt bind mtu {r = r} l h w n e) =
      requester-IsKept p r h v
  Move-IsKept {p} v (set_up_unnamed l h w) = requester-IsKept p (returns_with _) h v
  Move-IsKept {p} v (set_up_adv socket m setsockopt {r} l h n e) = adv-IsKept p r v
  Move-IsKept {p} v (set_up_sol receiving sending b c d j {r} l h n n' e) = sol-IsKept p sending r v
  Move-IsKept v (loop_end requester st k l h) = keeps_names v refl refl (λ g. cc)
  Move-IsKept v (loop_end (announcer a) st k l h) = keeps_names v refl refl (λ g. g)
  Move-IsKept v _ = keeps_names v refl refl (λ g. g)

Runs-IsKept :
    (use_dhcp : Bool) (initial : Bytes) (interface : Interface) (lan : Bytes) (wan : Ptr)
    {q : Program}
    → Runs (launched use_dhcp initial interface lan wan) q
    → IsKept use_dhcp lan wan q
Runs-IsKept use_dhcp initial interface lan wan stays = record {
  lan_kept = refl;
  wan_kept = refl;
  no_requests = λ u. ap (λ b. (launched b initial interface lan wan).place requester) u;
}
Runs-IsKept use_dhcp initial interface lan wan (then_move r m) =
    Move-IsKept (Runs-IsKept use_dhcp initial interface lan wan r) m

returned_or_fault : {A : Type 0} {m : Run A} {e : Fault} → (a : A) × (m ≡ done a) → m ≡ fault e → ⊥
returned_or_fault (a, h) r = cc

-- A thread that requests has a name.
wan_name :
    (use_dhcp : Bool) (wan : Ptr) {x : Place}
    → IsNamed use_dhcp wan
    → (use_dhcp ≡ false → x ≡ absent)
    → x ≡ created
    → (name : Bytes) × (wan ≡ some name) × (length name < 40)
wan_name false wan n k h = let g = k refl in absurd cc
wan_name true none n k h = absurd n
wan_name true (some name) n k h = (name, refl, n)

same_name : {w : Ptr} {a b : Bytes} → w ≡ some a → w ≡ some b → a ≡ b
same_name e h = cc

-- If the first prefix has its 25 bytes, `utils_Init` has left a request of 40, and the names of
-- the interfaces, of which only DHCP needs the second, are shorter than 40 bytes, then in every
-- state that the process reaches a thread that stands at an access outside of the memory, or at a
-- log message without its argument, was brought there from outside: by an allocation that failed,
-- by `ioctl` with an answer that is no whole union, by a `recvfrom` of Router Solicitations that
-- gives more bytes than the 1500 of its buffer, by a `bind` of the thread that listens that
-- failed, or by a request that is sent and not answered with a lease, or without a clock.
pub program_no_fault :
    (use_dhcp : Bool) (initial : Bytes) (interface : Interface) (lan : Bytes) (wan : Ptr)
    {q : Program} {e : Fault}
    → length initial ≡ 25
    → HasRequest interface.request
    → length lan < 40
    → IsNamed use_dhcp wan
    → Runs (launched use_dhcp initial interface lan wan) q
    → (f : Faulting q e) → ¬ (IsBenign f)
program_no_fault use_dhcp initial interface lan wan {q} size usable short n run f = cause f
  where
    kept : IsKept use_dhcp lan wan q
    kept = Runs-IsKept use_dhcp initial interface lan wan run

    fit : Fit q.system
    fit = Reach-Fit (start-Fit use_dhcp initial interface size usable) (Runs-Reach run)

    six : (a : Announcer) → 6 ≤ length (zeros_of (hardware_size a))
    six adv = omega arith
    six sol = omega arith

    lan_short : length q.lan < 40
    lan_short = rw kept.lan_kept short

    named : q.place requester ≡ created → (name : Bytes) × (wan ≡ some name) × (length name < 40)
    named h = wan_name use_dhcp wan n kept.no_requests h

    cause : {e : Fault} (f : Faulting q e) → IsBenign f → ⊥
    cause (in_request node_fits base ms env net h o a r) (inl (lease, l, d)) =
        returned_or_fault (_, Delegates-answered d l) r
    cause (in_request node_fits base ms env net h o a r) (inr u) =
        returned_or_fault (Unsent-returned node_fits base ms env net q.buffer u) r
    cause (in_query a ioctl h s r) u =
        returned_or_fault
          (get_hardware_address_in q.system.interface q.system.interface.request _ ioctl refl
            fit.usable (six a) u)
          r
    cause (in_listen buffer packets i h s r) v =
        returned_or_fault
          (receive_src_addr_in buffer_size buffer (zeros_of 16) packets i (omega arith) v) r
    cause (in_send a ms {l = l} {prefix = p} {prefix_length} {valid} {preferred} h s hl hv hp r) u =
        let (v, k) = locals_at fit a (copied l p) s in
        returned_or_fault (send_total ms a l p prefix_length valid preferred u v k) r
    cause (in_requester_set_up socket ms setsockopt bind mtu {name} h w k r) u =
        returned_or_fault
          (setup_requester_in (shared q) name socket ms setsockopt bind mtu u (
            let (given, g, s) = named h in
            subst (λ b. length b < 40) (same_name (kept.wan_kept ∙ g) w) s))
          r
    cause (in_unnamed_set_up k h w i) u =
        let (given, g, s) = named h in let d = kept.wan_kept ∙ g in cc
    cause (in_adv_set_up socket m setsockopt h i r) u =
        returned_or_fault (setup_adv_in (shared q) q.lan socket m setsockopt u lan_short) r
    cause (in_sol_set_up receiving sending b c d j h i i' r) u =
        returned_or_fault (setup_sol_in (shared q) q.lan receiving sending b c d j u lan_short) r
