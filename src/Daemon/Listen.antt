-- ===== src/Daemon/Listen.antt =====
-- `ReceiveSrcAddrFromRouterSolicit` of Src/test.c, on what `recvfrom` gives in turn: -1 (`none`), or
-- the bytes that it puts into the buffer and the address that they come from.
pub mod First
pub mod Heard
pub mod Safe
use pdrad.Prelude.{
  ℕ, List, [], ◌∷◌, Option, none, some, Bool, true, false, if◌then◌else◌, ◌==◌, not,
}
use pdrad.Memory.{Bytes, Run, done, ◌>>=◌, write, load8}

-- The bytes of the buffer, on the stack.
abbrev pub buffer_size : ℕ
buffer_size = 1500

-- The buffer and `addr` after a call.
abbrev take_packet : Bytes → Bytes → Option (Bytes × Bytes) → Run (Bytes × Bytes)
take_packet buffer addr none = done (buffer, addr)
take_packet buffer addr (some (bytes, source)) =
    write buffer 0 bytes >>= λ buffer'. done (buffer', source)

-- The buffer keeps what earlier calls put there. `none`: the function still waits.
unfoldable pub receive_src_addr : Bytes → Bytes → List (Option (Bytes × Bytes)) → Run (Option Bytes)
receive_src_addr buffer addr [] = done none
receive_src_addr buffer addr (received ∷ others) = do
  (buffer', addr') ← take_packet buffer addr received
  type ← load8 buffer' 0
  (if not (type == 133) then receive_src_addr buffer' addr' others else do
    code ← load8 buffer' 1
    (if not (code == 0) then receive_src_addr buffer' addr' others else done (some addr')))
