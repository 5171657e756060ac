-- ===== src/Daemon/Listen/Safe.antt =====
-- `ReceiveSrcAddrFromRouterSolicit` stays in its buffer.
use pdrad.Prelude.{
  ℕ, ◌≤◌, ◌≡◌, refl, ◌∙◌, List, [], ◌∷◌, Option, none, some, Bool-cases, inl, inr, ◌==◌, arith,
  length, All,
}
use pdrad.Memory.{Bytes, done}
use pdrad.Memory.Access.{write_in, load8_in}
use pdrad.Daemon.Listen.{take_packet, receive_src_addr}

-- `recvfrom` puts no more bytes than the buffer has.
abbrev pub FitsBuffer : ℕ → Option (Bytes × Bytes) → Type 0
FitsBuffer size none = Unit
FitsBuffer size (some (bytes, source)) = length bytes ≤ size

take_packet_in :
    (buffer addr : Bytes) (received : Option (Bytes × Bytes))
    → FitsBuffer (length buffer) received
    → (r : Bytes × Bytes) × (take_packet buffer addr received ≡ done r)
      × (length r.0 ≡ length buffer)
take_packet_in buffer addr none h = ((buffer, addr), refl, refl)
take_packet_in buffer addr (some (bytes, source)) h =
    let (b, p, q) = write_in buffer 0 bytes (omega arith) in ((b, source), rw p, q)

pub receive_src_addr_in :
    (size : ℕ) (buffer addr : Bytes) (packets : List (Option (Bytes × Bytes)))
    → length buffer ≡ size
    → 2 ≤ size
    → All (FitsBuffer size) packets
    → (o : Option Bytes) × (receive_src_addr buffer addr packets ≡ done o)
unfolding receive_src_addr
receive_src_addr_in size buffer addr [] e h v = (none, refl)
receive_src_addr_in size buffer addr (received ∷ others) e h (f, v) =
    let ((b, a), p, q) = take_packet_in buffer addr received (rw e f) in
    let (type, t) = load8_in b 0 (omega arith) in
    let (code, c) = load8_in b 1 (omega arith) in
    let (o, r) = receive_src_addr_in size b a others (q ∙ e) h v in
    rw (p, t)
      (elim (Bool-cases (type == 133)) [
        | inr other ↦ rw other (o, r)
        | inl solicit ↦
            rw (solicit, c)
              (elim (Bool-cases (code == 0)) [
                | inr other ↦ rw other (o, r)
                | inl zero_code ↦ rw zero_code (some a, refl)
              ])
      ])
