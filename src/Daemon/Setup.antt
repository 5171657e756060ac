-- ===== src/Daemon/Setup.antt =====
-- What the threads of Src/test.c do before their loops: sockets, and how they fail. What the kernel
-- answers is an argument of each; results that the code does not look at have no argument.
pub mod Descriptors
pub mod Safe
mod Tests
use pdrad.Prelude.{
  ℕ, ◌≡◌, List, [], ◌∷◌, ◌++◌, Option, none, some, Bool, true, false, if◌then◌else◌, ◌==◌,
}
use pdrad.Memory.{Bytes, Run, Fault, done, fault, ◌>>=◌, Malloc, deref, write}
use pdrad.Daemon.Start.{zeros_of}
use pdrad.Interface.{Answer, ok, err, sizeof_ifreq, remove}

-- The descriptors that the program has open, and the flags that cancel the threads.
pub record Shared : Type 0 where
  pub opened : List ℕ
  pub adv_cancelled : Bool
  pub sol_cancelled : Bool
  pub requester_cancelled : Bool

-- A thread ends the program, returns, or comes to its loop with what it uses there.
pub data Setup (A : Type 0) : Type 0 where
  exits : Setup A
  returns_with : Shared → Setup A
  enters : Shared → A → Setup A

abbrev pub opening : ℕ → Shared → Shared
opening h s = record s { opened = h ∷ s.opened }

abbrev pub closing : ℕ → Shared → Shared
closing h s = record s { opened = remove h s.opened }

-- `strcpy` of a name into a new `struct ifreq`.
abbrev pub named_request : Malloc → Bytes → Run Bytes
named_request m name = deref (m.alloc sizeof_ifreq) >>= λ b. write b 0 (name ++ 0 ∷ [])

-- `Thread_sendRouterAdv`; it uses its socket.
abbrev pub adv_bound : Shared → ℕ → Answer (Unit {0}) → Setup ℕ
adv_bound s h (ok _) = enters s h
adv_bound s h (err e) = returns_with (closing h (record s { adv_cancelled = true }))

unfoldable pub setup_adv : Shared → Bytes → Option ℕ → Malloc → Answer (Unit {0}) → Run (Setup ℕ)
setup_adv s name none m setsockopt = done (returns_with (record s { adv_cancelled = true }))
setup_adv s name (some h) m setsockopt =
    named_request m name >>= λ request. done (adv_bound (opening h s) h setsockopt)

-- The MTU, by default 1500.
abbrev pub mtu_of : Answer ℕ → ℕ
mtu_of (ok mtu) = mtu
mtu_of (err e) = 1500

abbrev pub zeroed_buffer : Bytes → Bytes
zeroed_buffer [] = []
zeroed_buffer (x ∷ b) = 0 ∷ zeroed_buffer b

-- `Thread_requestDhcpPrefix`; it uses its socket and a buffer of zeros as long as the MTU.
abbrev pub requester_addressed :
    Shared → ℕ → Malloc → Answer (Unit {0}) → Answer ℕ → Run (Setup (ℕ × Bytes))
requester_addressed s h m (err e) mtu = done (returns_with (closing h s))
requester_addressed s h m (ok _) mtu =
    deref (m.alloc (mtu_of mtu)) >>= λ buffer. done (enters s (h, zeroed_buffer buffer))

abbrev pub requester_bound :
    Shared → ℕ → Malloc → Answer (Unit {0}) → Answer (Unit {0}) → Answer ℕ → Run (Setup (ℕ × Bytes))
requester_bound s h m (err e) bind mtu = done (returns_with (closing h s))
requester_bound s h m (ok _) bind mtu = requester_addressed s h m bind mtu

-- The request is allocation 0, the buffer 1.
unfoldable pub setup_requester :
    Shared
    → Bytes
    → Option ℕ
    → (ℕ → Malloc)
    → Answer (Unit {0})
    → Answer (Unit {0})
    → Answer ℕ
    → Run (Setup (ℕ × Bytes))
setup_requester s name none ms setsockopt bind mtu =
    done (returns_with (record s { requester_cancelled = true }))
setup_requester s name (some h) ms setsockopt bind mtu = named_request (ms 0) name >>= λ request.
    requester_bound (opening h s) h (ms 1) setsockopt bind mtu

-- `Thread_listenRouterSolicit`: the socket that receives the multicast, and one that it does not use.
-- The request stands on the stack. The message of a failed `bind` is formatted with `%d` and `%s` and
-- given one argument.
abbrev pub sol_joined : Shared → ℕ → ℕ → Answer (Unit {0}) → Answer (Unit {0}) → Run (Setup ℕ)
sol_joined s h k (err e) bind = done (returns_with (closing h s))
sol_joined s h k (ok _) (ok _) = done (enters s h)
sol_joined s h k (ok _) (err e) = fault Fault.missing_argument

abbrev pub sol_bound :
    Shared → ℕ → ℕ → Answer (Unit {0}) → Answer (Unit {0}) → Answer (Unit {0}) → Run (Setup ℕ)
sol_bound s h k (err e) join bind = done (returns_with (closing k s))
sol_bound s h k (ok _) join bind = sol_joined s h k join bind

abbrev pub sol_received :
    Shared
    → ℕ
    → ℕ
    → Answer (Unit {0})
    → Answer (Unit {0})
    → Answer (Unit {0})
    → Answer (Unit {0})
    → Run (Setup ℕ)
sol_received s h k (err e) send join bind = done (returns_with (closing h s))
sol_received s h k (ok _) send join bind = sol_bound s h k send join bind

unfoldable pub setup_sol :
    Shared
    → Bytes
    → Option ℕ
    → Option ℕ
    → Answer (Unit {0})
    → Answer (Unit {0})
    → Answer (Unit {0})
    → Answer (Unit {0})
    → Run (Setup ℕ)
setup_sol s name none send_socket bind_receiving bind_sending join bind = done exits
setup_sol s name (some h) none bind_receiving bind_sending join bind = done exits
setup_sol s name (some h) (some k) bind_receiving bind_sending join bind =
    write (zeros_of sizeof_ifreq) 0 (name ++ 0 ∷ []) >>= λ request.
    sol_received (opening k (opening h s)) h k bind_receiving bind_sending join bind
