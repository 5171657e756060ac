-- ===== src/Daemon/Program/Adverts.antt =====
-- What the process sends.
use pdrad.Prelude.{◌≡◌, Bool, length, All}
use pdrad.Memory.{Bytes, Ptr}
use pdrad.Interface.{Interface}
use pdrad.Interface.Sizes.{HasRequest}
use pdrad.Daemon.Threads.Invariant.{Published}
use pdrad.Daemon.Threads.Adverts.{IsAdvert, threads-IsAdvert}
use pdrad.Daemon.Program.{Program, Runs, launched}
use pdrad.Daemon.Program.Simulation.{Runs-Reach}

-- If the first prefix has its 25 bytes and `utils_Init` has left a request of 40, then in every
-- state that the process reaches, whatever the kernel, the network, the allocations and the
-- scheduler do, each message given to `sendmsg` has exactly 80 bytes and hop limit 255; it goes to
-- ff02::1, or to an address that `recvfrom` has given the thread that listens with a packet of
-- type 133 and code 0 or one of less than two bytes, or, where a `recvfrom` of that thread has
-- failed, to the address of zeros; and it is the advertisement of one prefix that whole rounds of
-- `Thread_requestDhcpPrefix` make of the first, with that prefix's address, length and lifetimes:
-- none of a prefix that is converted only in part, and none mixed from two.
pub program-IsAdvert :
    (use_dhcp : Bool) (initial : Bytes) (interface : Interface) (lan : Bytes) (wan : Ptr)
    {q : Program}
    → length initial ≡ 25
    → HasRequest interface.request
    → Runs (launched use_dhcp initial interface lan wan) q
    → All (IsAdvert q.system.heard (Published initial)) q.system.messages
program-IsAdvert use_dhcp initial interface lan wan size usable r =
    threads-IsAdvert use_dhcp initial interface size usable (Runs-Reach r)
