-- ===== src/Daemon/Main/Tests.antt =====
-- The theorems on the program at a concrete command line.
use pdrad.Prelude.{◌≤◌, ◌≡◌, refl, List, [], ◌∷◌, some, true, length, All, arith}
use pdrad.Memory.{Bytes, done}
use pdrad.Memory.Samples.{zeroed, zeros}
use pdrad.Interface.{ok}
use pdrad.Interface.Calls.{IsSane}
use pdrad.Daemon.Start.{Texts}
use pdrad.Daemon.Threads.Holders.{holders}
use pdrad.Daemon.Program.{Program, Runs, crashed}
use pdrad.Daemon.Program.Sending.{Sends}
use pdrad.Daemon.Program.Asked.{unanswered}
use pdrad.Daemon.Main.Killed.{main_program-IsKilled}
use pdrad.Daemon.Program.Killed.{IsKilled}
use pdrad.Daemon.Request.Fatal.{undelegated}
use pdrad.Daemon.Main.Announces.{main_program-Advertises}
use pdrad.Daemon.Main.Leased.{main_program-Advertises_leased, main_program-Sends_leased}
use pdrad.Daemon.Threads.Exact.{Advertises}
use pdrad.Daemon.Threads.Ready.{zeroed_all, zeroed_all-Plentiful}
use pdrad.Dhcp.Packets.{MsgType, TransactionId, Environment}
use pdrad.Dhcp.Packets.Wire.{option, wire_packet}
use pdrad.Daemon.Lease.Rounds.{lease_bytes}
use pdrad.Daemon.Setup.{zeroed_buffer}
use pdrad.Daemon.Request.{Network}
use pdrad.Daemon.Request.Exchange.{delegating}
use pdrad.Daemon.Request.Delegated.{Delegates}
use pdrad.Daemon.Main.{main_program}
use pdrad.Daemon.Main.Reached.{main_program-IsSane}
use pdrad.Daemon.Main.Sends.{static, dhcp, main_program-Sends}

length-zeros : {b : Bytes} → some (zeros 16) ≡ some b → length b ≡ 16
length-zeros {b} e = let p : zeros 16 ≡ b = cc in rw (← p) refl

abbrev texts : Texts
texts = record {
  inet_pton = λ t. some (zeros 16);
  length-inet_pton = λ t e. length-zeros e;
  atoi = λ t. 64;
}

abbrev arguments : List Bytes
arguments = [] ∷ (b'd' ∷ []) ∷ (b'l' ∷ []) ∷ (b'w' ∷ []) ∷ []

main_program-Sends_example :
    (p : Program) × (main_program texts arguments (some 3) zeroed (ok tt) true true ≡ done (some p))
    × Sends unanswered p
main_program-Sends_example =
    main_program-Sends texts 3 zeroed (dhcp [] [] (b'l' ∷ []) (b'w' ∷ []) [] (omega arith))
      (omega arith) refl

-- The program starts, and sends.
running :
    (p : Program) × (main_program texts arguments (some 3) zeroed (ok tt) true true ≡ done (some p))
    × Sends unanswered p
running =
    main_program-Sends texts 3 zeroed (dhcp [] [] (b'l' ∷ []) (b'w' ∷ []) [] (omega arith))
      (omega arith) refl

main_program-IsSane_example :
    IsSane running.2.last.system.interface × (holders running.2.last.system ≤ 1)
main_program-IsSane_example =
    main_program-IsSane texts arguments (some 3) zeroed (ok tt) true true running.1 running.2.run

-- With a static prefix.
abbrev static_arguments : List Bytes
static_arguments = [] ∷ (b's' ∷ []) ∷ (b'l' ∷ []) ∷ (b'a' ∷ []) ∷ (b'6' ∷ []) ∷ []

announcing :
    (p : Program) × (main_program texts static_arguments (some 3) zeroed (ok tt) true true
      ≡ done (some p))
    × Sends unanswered p
announcing =
    main_program-Sends texts 3 zeroed (static [] [] (b'l' ∷ []) (b'a' ∷ []) (b'6' ∷ []) [])
      (omega arith) refl

main_program-Advertises_example :
    All
      (Advertises announcing.2.last.system.heard 24000 48000 64 (zeros 16))
      announcing.2.last.system.messages
main_program-Advertises_example =
    main_program-Advertises texts [] [] (b'l' ∷ []) (b'a' ∷ []) (b'6' ∷ []) [] 3 zeroed
      (omega arith) refl announcing.1 announcing.2.run

-- With a server that delegates a prefix.
abbrev address : Bytes
address = 0x20 ∷ 1 ∷ 0xd ∷ 0xb8 ∷ 0 ∷ 0 ∷ 0 ∷ 0 ∷ 0 ∷ 0 ∷ 0 ∷ 0 ∷ 0 ∷ 0 ∷ 0 ∷ 0 ∷ []

abbrev id : TransactionId
id = record { id_0 = 1; id_1 = 2; id_2 = 3 }

abbrev env : Environment
env = record { clock = some (5, 3); random = λ n. 70000 }

abbrev net : Network
net = record {
  sendto = true;
  recvfrom = some (
      wire_packet MsgType.reply id
        (delegating (option 2 (7 ∷ []) ∷ []) [] 9 0 0 (lease_bytes 600 1200 56 address) []));
}

answered_request :
    Delegates
      (lease_bytes 600 1200 56 address)
      (λ n. true)
      4096
      zeroed_all
      env
      net
      (zeroed_buffer (zeros 90))
answered_request = record {
  sec = 5;
  nsec = 3;
  table = _;
  block = _;
  client_id = _;
  elapsed = _;
  ia_pd = _;
  rapid = _;
  time = refl;
  table_made = refl;
  block_made = refl;
  client_id_made = refl;
  elapsed_made = refl;
  ia_pd_made = refl;
  rapid_made = refl;
  type = MsgType.reply;
  id = id;
  before = option 2 (7 ∷ []) ∷ [];
  after = [];
  ia = 9;
  time1 = 0;
  time2 = 0;
  more = [];
  sends = refl;
  receives = refl;
  reply = refl;
  lacks = omega arith;
  options = omega arith;
  fits = refl;
  room = omega arith;
  space = omega arith;
}

main_program-Sends_leased_example :
    (p : Program) × (main_program texts arguments (some 3) zeroed (ok tt) true true ≡ done (some p))
    × (w : Sends (Delegates (lease_bytes 600 1200 56 address)) p) × All
        (Advertises w.last.system.heard 600 1200 64 address)
        w.last.system.messages
main_program-Sends_leased_example =
    main_program-Sends_leased texts [] [] (b'l' ∷ []) (b'w' ∷ []) [] 3 zeroed (omega arith) refl 600
      1200 56 address refl 90 4096 zeroed_all env net (omega arith) (omega arith) (omega arith)
      answered_request

leasing :
    (p : Program) × (main_program texts arguments (some 3) zeroed (ok tt) true true ≡ done (some p))
    × (w : Sends (Delegates (lease_bytes 600 1200 56 address)) p) × All
        (Advertises w.last.system.heard 600 1200 64 address)
        w.last.system.messages
leasing =
    main_program-Sends_leased texts [] [] (b'l' ∷ []) (b'w' ∷ []) [] 3 zeroed (omega arith) refl 600
      1200 56 address refl 90 4096 zeroed_all env net (omega arith) (omega arith) (omega arith)
      answered_request

main_program-Advertises_leased_example :
    All (Advertises leasing.2.last.system.heard 600 1200 64 address) leasing.2.last.system.messages
main_program-Advertises_leased_example =
    main_program-Advertises_leased texts [] [] (b'l' ∷ []) (b'w' ∷ []) [] 3 zeroed (omega arith)
      refl 600 1200 56 address refl (omega arith) (omega arith) leasing.1 leasing.2.run
      leasing.2.asked

-- With a server that delegates nothing.
abbrev empty_reply : Network
empty_reply = record {
  sendto = true;
  recvfrom = some (wire_packet MsgType.reply id (option 2 (7 ∷ []) ∷ []));
}

main_program-IsKilled_example :
    (p : Program) × (q : Program) × (main_program texts arguments (some 3) zeroed (ok tt) true true
      ≡ done (some p))
    × (r : Runs p q) × IsKilled empty_reply r
    × (q.stage ≡ crashed)
main_program-IsKilled_example =
    main_program-IsKilled texts [] [] (b'l' ∷ []) (b'w' ∷ []) [] 3 zeroed 90 4096 zeroed_all env
      empty_reply (omega arith) (omega arith) refl refl zeroed_all-Plentiful
      (undelegated MsgType.reply id (option 2 (7 ∷ [])) [] refl (omega arith) (omega arith)
        (omega arith) (omega arith))
