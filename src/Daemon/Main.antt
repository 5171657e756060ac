-- ===== src/Daemon/Main.antt =====
-- `main` of Src/test.c from the command line to the creation of its first threads.
pub mod Reached
pub mod Sends
pub mod Robbed
pub mod Shut
pub mod Announces
pub mod Killed
pub mod Leased
mod Tests
use pdrad.Prelude.{ℕ, List, Option, none, some, Bool, if◌then◌else◌}
use pdrad.Memory.{Bytes, Run, done, ◌>>=◌, Malloc, deref}
use pdrad.Interface.{Answer, Interface, not_started, init}
use pdrad.Daemon.Start.{Texts, Started, argument, zeros_of, main_arguments}
use pdrad.Daemon.Program.{Program, launched}

-- `utils_Init`, whose result is not looked at, and the registration of the handler for both signals.
abbrev pub initialised :
    List Bytes
    → Option ℕ
    → Malloc
    → Answer (Unit {0})
    → Bool
    → Bool
    → Started
    → Run (Option Program)
initialised argv socket m setsockopt sigint sigterm none = done none
initialised argv socket m setsockopt sigint sigterm (some (use_dhcp, wan, prefix)) = do
  lan ← argument argv 2 >>= deref
  started ← init not_started lan socket m setsockopt
  done (
      if sigint
      then (if sigterm then some (launched use_dhcp prefix started.1 lan wan) else none)
      else none)

-- `none` where `main` returns -1.
unfoldable pub main_program :
    Texts → List Bytes → Option ℕ → Malloc → Answer (Unit {0}) → Bool → Bool → Run (Option Program)
unfolding main_arguments init
main_program c argv socket m setsockopt sigint sigterm =
    main_arguments c argv (zeros_of 25) >>= initialised argv socket m setsockopt sigint sigterm
