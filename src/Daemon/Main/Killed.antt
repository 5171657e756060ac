-- ===== src/Daemon/Main/Killed.antt =====
-- From the command line, the program comes to an answer that ends it.
use pdrad.Prelude.{ℕ, ◌<◌, ◌≡◌, List, ◌∷◌, some, true, length}
use pdrad.Memory.{Bytes, done, Fault, Malloc}
use pdrad.Memory.Samples.{zeros}
use pdrad.Memory.Supply.{Plentiful}
use pdrad.Interface.{ok}
use pdrad.Dhcp.Packets.{Environment}
use pdrad.Daemon.Start.{Texts, zeros_of}
use pdrad.Daemon.Start.Arguments.{main_arguments_dhcp}
use pdrad.Daemon.Request.{Network}
use pdrad.Daemon.Request.Fatal.{Fatal}
use pdrad.Daemon.Setup.{zeroed_buffer}
use pdrad.Daemon.Program.{Program, Runs, crashed, launched}
use pdrad.Daemon.Program.Prepared.{bound_to}
use pdrad.Daemon.Program.Killed.{IsKilled, request_kills}
use pdrad.Daemon.Main.{main_program}
use pdrad.Daemon.Main.Sends.{init_ok}

-- With `d` and two interfaces with names shorter than 40 bytes on the command line, any further
-- arguments, a socket, memory, a clock, and both signals registered, `main` comes to start its
-- threads, and some moves of the process lead to a request that ends it with a fault if the answer
-- is a well-formed ADVERTISE or REPLY that fits the buffer, as long as the MTU and 2 ^ 17 bytes at
-- least before the end of the address space, with one option at least and no IA_PD, or if
-- `recvfrom` returns -1 and the MTU is below 2 ^ 64 - 1.
pub main_program-IsKilled :
    (c : Texts) (name mode lan wan : Bytes) (more : List Bytes) (u : ℕ) (m : Malloc) {b : Bytes}
    (mtu base : ℕ) (ms : ℕ → Malloc) (env : Environment) (net : Network) {sec nsec : ℕ} {e : Fault}
    → length lan < 40
    → length wan < 40
    → m.alloc 40 ≡ some b
    → env.clock ≡ some (sec, nsec)
    → Plentiful ms
    → Fatal base (zeroed_buffer (zeros mtu)) net e
    → (p : Program) × (q : Program) × (main_program c
          (name ∷ (b'd' ∷ mode) ∷ lan ∷ wan ∷ more)
          (some u)
          m
          (ok tt)
          true
          true
        ≡ done (some p))
      × (r : Runs p q) × IsKilled net r
      × (q.stage ≡ crashed)
unfolding main_program
main_program-IsKilled c name mode lan wan more u m mtu base ms env net short short' e time has
      fatal =
    let (req, h, size) = init_ok lan u m short e in
    let (q, r, k, d) = request_kills u req lan wan short' mtu base ms env net time has fatal in
    (
      launched true (zeros_of 25) (bound_to u req) lan (some wan),
      q,
      rw (main_arguments_dhcp c name mode lan wan (zeros_of 25) more) (rw h),
      r,
      k,
      d,
    )
