-- ===== src/Daemon/Main/Leased.antt =====
-- From the command line, with DHCP and a server that delegates a prefix, what the program sends.
use pdrad.Prelude.{ℕ, ◌^◌, ◌<◌, ◌≡◌, refl, subst, ap, List, ◌∷◌, some, true, length, All, arith}
use pdrad.Memory.{Bytes, done, Malloc}
use pdrad.Memory.Samples.{zeros}
use pdrad.Interface.{ok}
use pdrad.Dhcp.Packets.{Environment}
use pdrad.Daemon.Start.{Texts, zeros_of}
use pdrad.Daemon.Start.Arguments.{main_arguments_dhcp}
use pdrad.Daemon.Lease.Rounds.{lease_bytes}
use pdrad.Daemon.Lease.Shared.{preferred_converted, valid_converted, length_set}
use pdrad.Daemon.Request.{Network}
use pdrad.Daemon.Request.Delegated.{Delegates, Delegates-answered}
use pdrad.Daemon.Setup.{zeroed_buffer}
use pdrad.Daemon.Threads.Exact.{Advertises}
use pdrad.Daemon.Program.{Program, Runs, launched}
use pdrad.Daemon.Program.Sending.{Sends, Sends-after, from_idle}
use pdrad.Daemon.Program.Prepared.{bound_to, round_prepared, sixty_four}
use pdrad.Daemon.Program.Leased.{AllDelegated, leased_messages}
use pdrad.Daemon.Main.{main_program}
use pdrad.Daemon.Main.Sends.{init_ok}
use pdrad.Daemon.Main.Announces.{same_program}

module _ (c : Texts) (name mode lan wan : Bytes) (more : List Bytes) (u : ℕ) (m : Malloc)
    {b : Bytes} (short : length lan < 40) (e : m.alloc 40 ≡ some b) (preferred valid l : ℕ)
    (prefix : Bytes) (whole : length prefix ≡ 16) where
  -- With `d` and two interfaces on the command line, any further arguments, the name of the LAN
  -- interface shorter than 40 bytes, a socket, memory for the request, and both signals
  -- registered, in every run of the process in which each request of `Thread_requestDhcpPrefix` is
  -- answered with the same lease of a prefix of 16 bytes and lifetimes of 32 bits, every message
  -- given to `sendmsg`, by either thread and whatever the interleaving, is the advertisement of
  -- that prefix with the length 64 and the lifetimes of the lease, with hop limit 255 and from a
  -- hardware address of 6 bytes.
  pub main_program-Advertises_leased :
      {p q : Program}
      → valid < 2 ^ 32
      → preferred < 2 ^ 32
      → main_program c (name ∷ (b'd' ∷ mode) ∷ lan ∷ wan ∷ more) (some u) m (ok tt) true true
        ≡ done (some p)
      → (r : Runs p q) → AllDelegated preferred valid l prefix r
      → All (Advertises q.system.heard preferred valid 64 prefix) q.system.messages
  unfolding main_program
  main_program-Advertises_leased {p} {q} hv hp started r d =
      let (req, h, size) = init_ok lan u m short e in
      let same : p ≡ launched true (zeros_of 25) (bound_to u req) lan (some wan) =
        same_program started
          (rw (main_arguments_dhcp c name mode lan wan (zeros_of 25) more) (rw h)) in
      let (r', d') =
        subst (λ x. (r : Runs x q) × AllDelegated preferred valid l prefix r) same (r, d) in
      leased_messages preferred valid l prefix whole (bound_to u req) lan (some wan) size r' d' hv
        hp

  -- With `d` and two interfaces with names shorter than 40 bytes on the command line, any further
  -- arguments, a socket, memory for the request, and both signals registered, and a request that
  -- is answered with a lease of a prefix of 16 bytes and lifetimes of 32 bits, in a packet that
  -- the buffer, as long as the MTU, has room for, `main` comes to start its threads, and from
  -- there some moves of the process, whose requests are answered with that lease, lead to a state
  -- in which a message was given to `sendmsg`, and every such message is the advertisement of that
  -- prefix with the length 64 and the lifetimes of the lease.
  pub main_program-Sends_leased :
      (mtu base : ℕ) (ms : ℕ → Malloc) (env : Environment) (net : Network)
      → valid < 2 ^ 32
      → preferred < 2 ^ 32
      → length wan < 40
      → Delegates
          (lease_bytes preferred valid l prefix)
          (λ n. true)
          base
          ms
          env
          net
          (zeroed_buffer (zeros mtu))
      → (p : Program) × (main_program c
            (name ∷ (b'd' ∷ mode) ∷ lan ∷ wan ∷ more)
            (some u)
            m
            (ok tt)
            true
            true
          ≡ done (some p))
        × (w : Sends (Delegates (lease_bytes preferred valid l prefix)) p) × All
            (Advertises w.last.system.heard preferred valid 64 prefix)
            w.last.system.messages
  unfolding main_program
  main_program-Sends_leased mtu base ms env net hv hp short' d =
      let (req, h, size) = init_ok lan u m short e in
      let (p, r, k, v) =
        round_prepared u req lan wan size short short' mtu base ms env net
          (Delegates-answered d (omega arith)) (preferred_converted preferred valid l prefix)
          (valid_converted preferred valid l prefix) (length_set preferred valid l prefix) refl
          sixty_four (Delegates (lease_bytes preferred valid l prefix)) d in
      let w =
        Sends-after r k (omega (arith, ap length v.unsent))
          (from_idle p v.announcing v.free v.at_head) in
      (
        launched true (zeros_of 25) (bound_to u req) lan (some wan),
        rw (main_arguments_dhcp c name mode lan wan (zeros_of 25) more) (rw h),
        w,
        leased_messages preferred valid l prefix whole (bound_to u req) lan (some wan) size w.run
            w.asked hv hp,
      )
