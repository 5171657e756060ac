-- ===== src/Daemon/Listen/First.antt =====
-- Which sender is answered.
use pdrad.Prelude.{
  ℕ, suc, ◌+◌, ◌≤◌, ◌≡◌, refl, ap, ◌∙◌, List, [], ◌∷◌, ◌++◌, Option, none, some, Bool, true, false,
  if◌then◌else◌, ◌==◌, ◌&&◌, not, arith, length, length-append, length-drop, All, drop, entries,
}
use pdrad.Memory.{Bytes, Run, done, overwrite}
use pdrad.Memory.Laws.{entries-append-drop, length-entries, overwrite-append}
use pdrad.Daemon.Listen.{receive_src_addr}

-- An ICMPv6 packet: type, code, the rest, and the sender.
pub record Icmp : Type 0 where
  pub type : ℕ
  pub code : ℕ
  pub rest : Bytes
  pub source : Bytes

abbrev pub delivered : List Icmp → List (Option (Bytes × Bytes))
delivered [] = []
delivered (p ∷ ps) = some (p.type ∷ p.code ∷ p.rest, p.source) ∷ delivered ps

-- The sender of the first Router Solicitation.
abbrev pub first_solicit : List Icmp → Option Bytes
first_solicit [] = none
first_solicit (p ∷ ps) = if p.type == 133 && p.code == 0 then some p.source else first_solicit ps

abbrev pub FitsIn : ℕ → List Icmp → Type 0
FitsIn size ps = All (λ (p : Icmp). length p.rest + 2 ≤ size) ps

-- What a packet leaves in the buffer.
overwrite_start :
    (buffer bytes : Bytes)
    → length bytes ≤ length buffer
    → overwrite buffer bytes ≡ done (bytes ++ drop (length bytes) buffer)
overwrite_start buffer bytes h =
    ap (λ b. overwrite b bytes) (entries-append-drop (length bytes) buffer h)
    ∙ overwrite-append (entries (length bytes) buffer) bytes (drop (length bytes) buffer)
        (length-entries (length bytes) buffer)

-- If every packet that `recvfrom` delivers has a type and a code and fits the buffer, whatever the
-- buffer holds at first, `ReceiveSrcAddrFromRouterSolicit` returns the sender of the first packet
-- of type 133 and code 0, and waits if there is none.
pub receive_src_addr_lem :
    (ps : List Icmp) (buffer addr : Bytes)
    → FitsIn (length buffer) ps
    → receive_src_addr buffer addr (delivered ps) ≡ done (first_solicit ps)
unfolding receive_src_addr
receive_src_addr_lem [] buffer addr v = refl
receive_src_addr_lem (p ∷ ps) buffer addr (h, v) =
    let left = drop (suc (suc (length p.rest))) buffer in
    let size : length (p.type ∷ p.code ∷ p.rest ++ left) ≡ length buffer =
      omega (arith, length-append p.rest left, length-drop (suc (suc (length p.rest))) buffer) in
    let others : receive_src_addr (p.type ∷ p.code ∷ p.rest ++ left) p.source (delivered ps)
        ≡ done (first_solicit ps) =
      receive_src_addr_lem ps (p.type ∷ p.code ∷ p.rest ++ left) p.source (rw size v) in
    rw (overwrite_start buffer (p.type ∷ p.code ∷ p.rest) (omega arith))
      (branches (p.type == 133) (p.code == 0) others)
  where
    branches :
        (a b : Bool) {r : Run (Option Bytes)}
        → r ≡ done (first_solicit ps)
        → (if not a then r else if not b then r else done (some p.source))
          ≡ done (if a && b then some p.source else first_solicit ps)
    branches true true e = refl
    branches true false e = e
    branches false b e = e
