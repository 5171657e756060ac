-- ===== src/Daemon/Threads/Tests.antt =====
-- The theorems on the threads at a state that they reach.
use pdrad.Prelude.{refl, [], ◌∷◌, some, false}
use pdrad.Memory.{Bytes}
use pdrad.Memory.Samples.{zeros}
use pdrad.Interface.{Interface, live}
use pdrad.Daemon.Threads.{System, here, start}
use pdrad.Daemon.Threads.Progress.{Sends, threads_progress}

abbrev given_prefix : Bytes
given_prefix = 0 ∷ 0 ∷ 0 ∷ 0 ∷ 1 ∷ 0 ∷ 0 ∷ 0 ∷ 64 ∷ 0x20 ∷ zeros 15

-- Descriptor 3 is open.
abbrev lan_interface : Interface
lan_interface = record { handler = some 3; request = live (zeros 40); opened = 3 ∷ []; others = [] }

abbrev started : System
started = start false given_prefix lan_interface

threads_progress_example : Sends started
threads_progress_example =
    threads_progress false given_prefix lan_interface refl refl here refl (λ e. cc) (λ e. cc)

-- A run in which one message is sent.
one_message : Sends started
one_message =
    threads_progress false given_prefix lan_interface refl refl here refl (λ e. cc) (λ e. cc)
