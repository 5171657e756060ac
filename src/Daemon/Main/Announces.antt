-- ===== src/Daemon/Main/Announces.antt =====
-- From the command line with a static prefix, what the program sends.
use pdrad.Prelude.{
  ℕ, ◌%◌, ◌<◌, ◌≡◌, subst, List, ◌∷◌, Option, some, none, true, false, length, All, arith,
}
use pdrad.Memory.{Bytes, Run, done, Malloc}
use pdrad.Interface.{ok}
use pdrad.Daemon.Start.{Texts}
use pdrad.Daemon.Start.Arguments.{address_of, length-address_of, main_arguments_static}
use pdrad.Daemon.Lease.Rounds.{shared_bytes}
use pdrad.Daemon.Threads.Static.{static-IsAdvert}
use pdrad.Daemon.Threads.Exact.{Advertises, all_advertise}
use pdrad.Daemon.Program.{Program, Runs, launched}
use pdrad.Daemon.Program.Prepared.{bound_to}
use pdrad.Daemon.Program.Simulation.{Runs-Reach}
use pdrad.Daemon.Main.{main_program}
use pdrad.Daemon.Main.Sends.{init_ok, length-shared}

pub same_program :
    {m : Run (Option Program)} {p q : Program} → m ≡ done (some p) → m ≡ done (some q) → p ≡ q
same_program e h = cc

-- With `s`, an interface, an address and a length on the command line, any further arguments, the
-- name of the interface shorter than 40 bytes, a socket, memory for the request, and both signals
-- registered, in every state that the process reaches every message given to `sendmsg` is the
-- advertisement of that address with the lowest eight bits of the length, valid for 48000 and
-- preferred for 24000 seconds, with hop limit 255 and from a hardware address of 6 bytes; a text
-- that `inet_pton` refuses is announced as the address of zeros.
pub main_program-Advertises :
    (c : Texts) (name mode lan address len : Bytes) (more : List Bytes) (u : ℕ) (m : Malloc)
    {b : Bytes} {p q : Program}
    → length lan < 40
    → m.alloc 40 ≡ some b
    → main_program c
        (name ∷ (b's' ∷ mode) ∷ lan ∷ address ∷ len ∷ more)
        (some u)
        m
        (ok tt)
        true
        true
      ≡ done (some p)
    → Runs p q
    → All
        (Advertises q.system.heard 24000 48000 (c.atoi len % 256) (address_of c address))
        q.system.messages
unfolding main_program
main_program-Advertises c name mode lan address len more u m {p = p} {q = q} short e started r =
    let (req, h, size) = init_ok lan u m short e in
    let prefix = shared_bytes 24000 48000 (c.atoi len % 256) (address_of c address) in
    let same : p ≡ launched false prefix (bound_to u req) lan none =
      same_program started (rw (main_arguments_static c name mode lan address len more) (rw h)) in
    all_advertise q.system.heard 24000 48000 (c.atoi len % 256) (address_of c address)
      (length-address_of c address) (omega arith) (omega arith) q.system.messages
      (static-IsAdvert prefix (bound_to u req) (length-shared c len address) size
        (Runs-Reach (subst (λ x. Runs x q) same r)))
