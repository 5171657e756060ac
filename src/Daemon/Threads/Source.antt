-- ===== src/Daemon/Threads/Source.antt =====
-- What the threads do with the interface.
use pdrad.Interface.{no_address, hardware_call, link_local_call, dispose_call}
use pdrad.Interface.Calls.{IsSane, Call-IsSane}
use pdrad.Daemon.Threads.{System, Step, query_address, prepare, signal, Reach, here, later}

-- A step makes one call of the interface, or none.
Step-IsSane : {s t : System} → IsSane s.interface → Step s t → IsSane t.interface
Step-IsSane v (query_address a connect getsockname e c k) =
    Call-IsSane v (link_local_call no_address connect getsockname)
Step-IsSane v (prepare a ioctl packets dst e d h q) = Call-IsSane v (hardware_call _ ioctl q)
Step-IsSane v signal = Call-IsSane v dispose_call
Step-IsSane v _ = v

pub Reach-IsSane : {s t : System} → IsSane s.interface → Reach s t → IsSane t.interface
Reach-IsSane v here = v
Reach-IsSane v (later r st) = Step-IsSane (Reach-IsSane v r) st
