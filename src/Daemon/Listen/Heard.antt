-- ===== src/Daemon/Listen/Heard.antt =====
-- Whom `ReceiveSrcAddrFromRouterSolicit` answers, whatever its buffer holds at first.
use pdrad.Prelude.{
  ℕ, ◌≡◌, refl, sym, ap, subst, ◌∙◌, ◌⊎◌, inl, inr, List, [], ◌∷◌, ◌++◌, Option, none, some, Bool,
  true, false, if◌then◌else◌, ◌==◌, not, arith,
}
use pdrad.Memory.{Bytes, Run, done, fault, ◌>>=◌, overwrite, write, load8}
use pdrad.Memory.Access.{done-injective, >>=-eq-done}
use pdrad.Daemon.Start.{zeros_of}
use pdrad.Daemon.Listen.{take_packet, receive_src_addr}

-- The packet has the type and the code of a Router Solicitation, or is too short to have both.
abbrev pub MaySolicit : Bytes → Type 0
MaySolicit [] = Unit
MaySolicit (type ∷ []) = Unit
MaySolicit (type ∷ code ∷ rest) = (type ≡ 133) × (code ≡ 0)

-- The answer of a `recvfrom` that makes `dst` the destination: a packet from there, or -1, which leaves
-- the address of zeros.
abbrev pub IsFrom : Bytes → Option (Bytes × Bytes) → Type 0
IsFrom dst none = dst ≡ zeros_of 16
IsFrom dst (some (bytes, source)) = MaySolicit bytes × (source ≡ dst)

-- One of the answers is such.
abbrev pub IsHeard : Bytes → List (Option (Bytes × Bytes)) → Type 0
IsHeard dst [] = ⊥
IsHeard dst (received ∷ others) = IsFrom dst received ⊎ IsHeard dst others

pub IsHeard-append :
    (dst : Bytes) (packets heard : List (Option (Bytes × Bytes)))
    → IsHeard dst heard
    → IsHeard dst (packets ++ heard)
IsHeard-append dst [] heard h = h
IsHeard-append dst (received ∷ others) heard h = inr (IsHeard-append dst others heard h)

pub append-IsHeard :
    (dst : Bytes) (packets heard : List (Option (Bytes × Bytes)))
    → IsHeard dst packets
    → IsHeard dst (packets ++ heard)
append-IsHeard dst [] heard h = absurd h
append-IsHeard dst (received ∷ others) heard (inl h) = inl h
append-IsHeard dst (received ∷ others) heard (inr h) = inr (append-IsHeard dst others heard h)

-- What a buffer shows: a Router Solicitation, or not.
abbrev verdict : Bytes → Run Bool
verdict b = load8 b 0 >>= λ type.
    if type == 133 then (load8 b 1 >>= λ code. done (code == 0)) else done false

abbrev judged : Bytes × Bytes → List (Option (Bytes × Bytes)) → Run Bool → Run (Option Bytes)
judged (b, a) others v = v >>= λ shown. if shown then done (some a) else receive_src_addr b a others

judged_code :
    (n : Run ℕ) (q r : Run (Option Bytes))
    → (n >>= λ code. if not (code == 0) then r else q)
      ≡ (n >>= λ code. done (code == 0)) >>= λ shown. if shown then q else r
judged_code (fault e) q r = refl
judged_code (done code) q r = zero_code (code == 0)
  where
    zero_code : (b : Bool) → (if not b then r else q) ≡ (if b then q else r)
    zero_code true = refl
    zero_code false = refl

judged_type :
    (m n : Run ℕ) (q r : Run (Option Bytes))
    → (m >>= λ type.
        if not (type == 133) then r else n >>= λ code. if not (code == 0) then r else q)
      ≡ (m >>= λ type. if type == 133 then (n >>= λ code. done (code == 0)) else done false)
        >>= λ shown. if shown then q else r
judged_type (fault e) n q r = refl
judged_type (done type) n q r = solicit (type == 133)
  where
    solicit :
        (b : Bool)
        → (if not b then r else n >>= λ code. if not (code == 0) then r else q)
          ≡ (if b then (n >>= λ code. done (code == 0)) else done false) >>= λ shown.
              if shown then q else r
    solicit true = judged_code n q r
    solicit false = refl

-- A return of the function shows the first answer, what it leaves and the verdict.
receive-judged :
    (buffer addr : Bytes) (received : Option (Bytes × Bytes))
    (others : List (Option (Bytes × Bytes))) {o : Option Bytes}
    → receive_src_addr buffer addr (received ∷ others) ≡ done o
    → (s : Bytes × Bytes) × (take_packet buffer addr received ≡ done s)
      × (judged s others (verdict s.0) ≡ done o)
unfolding receive_src_addr
receive-judged buffer addr received others e =
    let ((b, a), p, q) = >>=-eq-done (take_packet buffer addr received) _ e in
    (
      (b, a),
      p,
      sym (judged_type (load8 b 0) (load8 b 1) (done (some a)) (receive_src_addr b a others)) ∙ q,
    )

-- A buffer that shows a Router Solicitation got that from the packet.
verdict-MaySolicit :
    (buffer bytes : Bytes) {b : Bytes}
    → write buffer 0 bytes ≡ done b
    → verdict b ≡ done true
    → MaySolicit bytes
verdict-MaySolicit buffer [] e v = tt
verdict-MaySolicit buffer (type ∷ []) e v = tt
verdict-MaySolicit [] (type ∷ code ∷ rest) e v = cc
verdict-MaySolicit (x ∷ []) (type ∷ code ∷ rest) e v = cc
verdict-MaySolicit (x ∷ y ∷ buffer) (type ∷ code ∷ rest) {b} e v =
    let (r, p, q) = >>=-eq-done (overwrite (y ∷ buffer) (code ∷ rest)) _ e in
    let (r', p', q') = >>=-eq-done (overwrite buffer rest) _ p in
    let has_type : type ∷ r ≡ b = done-injective q in
    let has_code : code ∷ r' ≡ r = done-injective q' in
    let starts : type ∷ code ∷ r' ≡ b = ap (λ x. type ∷ x) has_code ∙ has_type in
    shown (subst (λ x. verdict x ≡ done true) (sym starts) v)
  where
    shown :
        (if type == 133 then done (code == 0) else done false) ≡ done true
        → (type ≡ 133) × (code ≡ 0)
    shown h = ground arith

-- The answer that the verdict accepts is the destination.
accepted :
    (received : Option (Bytes × Bytes)) (others : List (Option (Bytes × Bytes))) (s : Bytes × Bytes)
    (dst : Bytes)
    → judged s others (verdict s.0) ≡ done (some dst)
    → (verdict s.0 ≡ done true → s.1 ≡ dst → IsFrom dst received)
    → (verdict s.0 ≡ done false
        → receive_src_addr s.0 s.1 others ≡ done (some dst)
        → IsHeard dst others)
    → IsHeard dst (received ∷ others)
accepted received others s dst e hit miss =
    let (v, p, q) = >>=-eq-done (verdict s.0) _ e in decided v p q
  where
    decided :
        (v : Bool)
        → verdict s.0 ≡ done v
        → (if v then done (some s.1) else receive_src_addr s.0 s.1 others) ≡ done (some dst)
        → IsHeard dst (received ∷ others)
    decided true p q = inl (hit p cc)
    decided false p q = inr (miss p q)

IsFrom-packet :
    (buffer bytes source dst : Bytes) (s : Bytes × Bytes) (addr : Bytes)
    → take_packet buffer addr (some (bytes, source)) ≡ done s
    → verdict s.0 ≡ done true
    → s.1 ≡ dst
    → IsFrom dst (some (bytes, source))
IsFrom-packet buffer bytes source dst s addr e v d =
    let (b, p, q) = >>=-eq-done (write buffer 0 bytes) _ e in
    let same : (b, source) ≡ s = done-injective q in
    let shown : verdict b ≡ done true =
      subst (λ x. verdict x ≡ done true) (sym (ap (λ x. x.0) same)) v in
    (verdict-MaySolicit buffer bytes p shown, ap (λ x. x.1) same ∙ d)

-- Once the buffer shows none, a packet brings the first.
later-IsHeard :
    (buffer addr dst : Bytes) (packets : List (Option (Bytes × Bytes)))
    → verdict buffer ≡ done false
    → receive_src_addr buffer addr packets ≡ done (some dst)
    → IsHeard dst packets
unfolding receive_src_addr
later-IsHeard buffer addr dst [] v e = cc
later-IsHeard buffer addr dst (received ∷ others) v e =
    let (s, p, q) = receive-judged buffer addr received others e in
    accepted received others s dst q (there received p)
      (λ w e'. later-IsHeard s.0 s.1 dst others w e')
  where
    there :
        (received : Option (Bytes × Bytes)) {s : Bytes × Bytes}
        → take_packet buffer addr received ≡ done s
        → verdict s.0 ≡ done true
        → s.1 ≡ dst
        → IsFrom dst received
    there none {s} p w d =
        let same : (buffer, addr) ≡ s = done-injective p in
        let w' : verdict buffer ≡ done true =
          subst (λ x. verdict x ≡ done true) (sym (ap (λ x. x.0) same)) w in
        cc
    there (some (bytes, source)) {s} p w d = IsFrom-packet buffer bytes source dst s addr p w d

-- Whatever its buffer holds at first and whatever `recvfrom` gives, if
-- `ReceiveSrcAddrFromRouterSolicit` returns an address, then it is the one that a packet of type
-- 133 and code 0, or one of less than two bytes, came with, or a `recvfrom` has failed and it is
-- the address of zeros.
pub receive_src_addr-IsHeard :
    (buffer dst : Bytes) (packets : List (Option (Bytes × Bytes)))
    → receive_src_addr buffer (zeros_of 16) packets ≡ done (some dst)
    → IsHeard dst packets
unfolding receive_src_addr
receive_src_addr-IsHeard buffer dst [] e = cc
receive_src_addr-IsHeard buffer dst (received ∷ others) e =
    let (s, p, q) = receive-judged buffer (zeros_of 16) received others e in
    accepted received others s dst q (there received p)
      (λ w e'. later-IsHeard s.0 s.1 dst others w e')
  where
    there :
        (received : Option (Bytes × Bytes)) {s : Bytes × Bytes}
        → take_packet buffer (zeros_of 16) received ≡ done s
        → verdict s.0 ≡ done true
        → s.1 ≡ dst
        → IsFrom dst received
    there none {s} p w d =
        let same : (buffer, zeros_of 16) ≡ s = done-injective p in sym (ap (λ x. x.1) same ∙ d)
    there (some (bytes, source)) {s} p w d =
        IsFrom-packet buffer bytes source dst s (zeros_of 16) p w d
