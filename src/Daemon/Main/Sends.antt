-- ===== src/Daemon/Main/Sends.antt =====
-- From the command line, the program comes to send.
use pdrad.Prelude.{ℕ, ◌%◌, ◌<◌, ◌≡◌, List, ◌∷◌, none, some, true, false, ap, length, arith}
use pdrad.Memory.{Bytes, Ptr, done, Malloc}
use pdrad.Interface.{ok, not_started, init}
use pdrad.Interface.Calls.{among_self}
use pdrad.Interface.Query.{name_stored}
use pdrad.Daemon.Start.{Texts, zeros_of}
use pdrad.Daemon.Lease.Rounds.{shared_bytes}
use pdrad.Daemon.Start.Arguments.{
  address_of, length-address_of, main_arguments_static, main_arguments_dhcp,
}
use pdrad.Daemon.Program.{Program, launched}
use pdrad.Daemon.Program.Asked.{unanswered}
use pdrad.Daemon.Program.Sending.{Sends, Sends-after, from_idle}
use pdrad.Daemon.Program.Prepared.{bound_to, static_prepared, dhcp_prepared}
use pdrad.Daemon.Main.{main_program}

pub length-shared :
    (c : Texts) (len address : Bytes)
    → length (shared_bytes 24000 48000 (c.atoi len % 256) (address_of c address)) ≡ 25
length-shared c len address = omega (arith, length-address_of c address)

pub init_ok :
    (lan : Bytes) (h : ℕ) (m : Malloc) {b : Bytes}
    → length lan < 40
    → m.alloc 40 ≡ some b
    → (req : Bytes) × (init not_started lan (some h) m (ok tt) ≡ done (0, bound_to h req))
      × (length req ≡ 40)
unfolding init
init_ok lan h m {b} short e =
    let (b', p, q) = name_stored lan b short (m.length-alloc 40 e) in
    (b', rw (e, p, among_self h), q)

-- A command line with all that the mode needs: for DHCP a name that fits.
pub data Sufficient : Bytes → Ptr → List Bytes → Type 0 where
  static :
      (name mode lan address len : Bytes) (more : List Bytes)
      → Sufficient lan none (name ∷ (b's' ∷ mode) ∷ lan ∷ address ∷ len ∷ more)
  dhcp :
      (name mode lan wan : Bytes) (more : List Bytes)
      → length wan < 40
      → Sufficient lan (some wan) (name ∷ (b'd' ∷ mode) ∷ lan ∷ wan ∷ more)

-- With `s`, an interface, an address and a length on the command line, or with `d` and two
-- interfaces whose second name is shorter than 40 bytes, any further arguments, the name of the
-- LAN interface shorter than 40 bytes, a socket, memory for the request, and both signals
-- registered, `main` comes to start its threads, and from there some moves of the process, set-ups
-- of the threads included, lead to a state in which a message was given to `sendmsg`; and no
-- request of these moves is sent, so that with DHCP there is no answer of a server.
pub main_program-Sends :
    (c : Texts) {lan : Bytes} {wan : Ptr} {argv : List Bytes} (u : ℕ) (m : Malloc) {b : Bytes}
    → Sufficient lan wan argv
    → length lan < 40
    → m.alloc 40 ≡ some b
    → (p : Program) × (main_program c argv (some u) m (ok tt) true true ≡ done (some p))
      × Sends unanswered p
unfolding main_program
main_program-Sends c u m (static name mode lan address len more) short e =
    let (req, h, size) = init_ok lan u m short e in
    let prefix = shared_bytes 24000 48000 (c.atoi len % 256) (address_of c address) in
    let (p, r, k, v, free, head, unsent) =
      static_prepared prefix u req lan none (length-shared c len address) size short unanswered in
    (
      launched false prefix (bound_to u req) lan none,
      rw (main_arguments_static c name mode lan address len more) (rw h),
      Sends-after r k (omega (arith, ap length unsent)) (from_idle p v free head),
    )
main_program-Sends c u m (dhcp name mode lan wan more short') short e =
    let (req, h, size) = init_ok lan u m short e in
    let (p, r, k, v) = dhcp_prepared u req lan wan size short short' in
    (
      launched true (zeros_of 25) (bound_to u req) lan (some wan),
      rw (main_arguments_dhcp c name mode lan wan (zeros_of 25) more) (rw h),
      Sends-after r k (omega (arith, ap length v.unsent))
          (from_idle p v.announcing v.free v.at_head),
    )
