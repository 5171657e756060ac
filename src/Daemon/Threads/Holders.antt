-- ===== src/Daemon/Threads/Holders.antt =====
-- At most one thread holds the mutex.
use pdrad.Prelude.{
  ℕ, ◌+◌, ◌≤◌, ◌≡◌, refl, ◌⊎◌, inl, inr, Bool, true, false, Bool-cases, if◌then◌else◌, arith,
}
use pdrad.Memory.{Bytes}
use pdrad.Interface.{Interface}
use pdrad.Daemon.Threads.{adv, sol, System, Reach, start}
use pdrad.Daemon.Threads.Invariant.{
  requester_holds, announcer_holds, Published, Inv, Stage-Published,
}
use pdrad.Daemon.Threads.Preserved.{announcer_free, requester_alone, announcer_alone, reachable-Inv}

-- How many threads stand where they hold the mutex.
abbrev one_if : Bool → ℕ
one_if b = if b then 1 else 0

abbrev pub holders : System → ℕ
holders s =
    one_if (requester_holds s.requesting)
    + (one_if (announcer_holds (s.announcing adv)) + one_if (announcer_holds (s.announcing sol)))

one_of_three :
    (a b c : Bool)
    → (a ≡ true → b ≡ false)
    → (a ≡ true → c ≡ false)
    → (b ≡ true → c ≡ false)
    → one_if a + (one_if b + one_if c) ≤ 1
one_of_three true true c h k l = let e = h refl in cc
one_of_three true false true h k l = let e = k refl in cc
one_of_three true false false h k l = omega arith
one_of_three false true true h k l = let e = l refl in cc
one_of_three false true false h k l = omega arith
one_of_three false false true h k l = omega arith
one_of_three false false false h k l = omega arith

at_most_one : {initial : Bytes} {s : System} → Inv initial s → holders s ≤ 1
at_most_one {s = s} inv =
    one_of_three (requester_holds s.requesting) (announcer_holds (s.announcing adv))
      (announcer_holds (s.announcing sol)) (λ h. announcer_free inv adv (requester_alone inv h adv))
      (λ h. announcer_free inv sol (requester_alone inv h sol)) (λ h. (announcer_alone inv adv h).1)

-- In every state that the three threads, `main` and the signal handler reach from the start, one
-- thread at most stands where it holds the mutex, and unless that is `Thread_requestDhcpPrefix`
-- the prefix is one that whole rounds of it make of the first.
pub threads_exclusive :
    (use_dhcp : Bool) (initial : Bytes) (interface : Interface) {s : System}
    → Reach (start use_dhcp initial interface) s
    → (holders s ≤ 1) × ((requester_holds s.requesting ≡ true) ⊎ Published initial s.prefix)
threads_exclusive use_dhcp initial interface {s} r =
    let inv = reachable-Inv use_dhcp initial interface r in
    (
      at_most_one inv,
      elim (Bool-cases (requester_holds s.requesting)) [
        | inl holds ↦ inl holds
        | inr not ↦ inr (Stage-Published s.requesting not inv.stage)
      ],
    )
