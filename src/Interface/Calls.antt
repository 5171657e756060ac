-- ===== src/Interface/Calls.antt =====
-- What every call keeps.
use pdrad.Prelude.{ℕ, ◌≡◌, ◌≢◌, refl, List, [], ◌∷◌, ◌++◌, Option, none, some, true, false, arith}
use pdrad.Memory.{Bytes, Malloc, deref, read, write, store32}
use pdrad.Memory.Ensures.{Ensures, returns, faults, Ensures-eq, Ensures->>=}
use pdrad.Interface.{
  Answer, ok, err, Request, null, freed, live, Interface, not_started, is_open, among, remove,
  close_in, open_with, on_handler, close_handler, hardware_answer, get_hardware_address, bound,
  init, connected, named, get_link_local_address, dispose, Call, init_call, hardware_call,
  link_local_call, dispose_call, CallPath, no_calls, then_call,
}

-- The module has nothing, or one descriptor, which is the handler; before the first call of
-- `utils_Init` it has nothing at all.
pub data Descriptors : Option ℕ → Request → List ℕ → Type 0 where
  unused : Descriptors none null []
  closed : {h : Option ℕ} {r : Request} → r ≢ null → Descriptors h r []
  one : {h : ℕ} {b : Bytes} → Descriptors (some h) (live b) (h ∷ [])

abbrev pub IsSane : Interface → Type 0
IsSane s = Descriptors s.handler s.request s.opened

pub among_self : (h : ℕ) → among h (h ∷ []) ≡ true
among_self h = ground arith

pub remove_self : (h : ℕ) → remove h (h ∷ []) ≡ []
remove_self h = ground arith

pub not_open : (h : Option ℕ) → is_open h [] ≡ false
not_open none = refl
not_open (some h) = refl

pub close-Descriptors :
    {h : Option ℕ} {r : Request} {xs : List ℕ}
    → Descriptors h r xs
    → Descriptors h r (close_in h xs)
close-Descriptors unused = unused
close-Descriptors (closed {h = none} n) = closed n
close-Descriptors (closed {h = some h} n) = closed n
close-Descriptors (one {h = h} {b = b}) =
    rw (remove_self h) (closed {h = some h} {r = live b} (λ e. cc))

module _ (name : Bytes) (socket : Option ℕ) (m : Malloc) (setsockopt : Answer (Unit {0})) where
  bound-IsSane :
      (socket : Option ℕ) (b : Bytes) (others : List ℕ) (setsockopt : Answer (Unit {0}))
      → IsSane
          (bound
            (record {
              handler = socket;
              request = live b;
              opened = open_with socket [];
              others = others;
            })
            (on_handler
              (record {
                handler = socket;
                request = live b;
                opened = open_with socket [];
                others = others;
              })
              setsockopt)).1
  bound-IsSane none b others r = closed (λ e. cc)
  bound-IsSane (some h) b others (ok u) = rw (among_self h) one
  bound-IsSane (some h) b others (err e) =
      rw (among_self h, remove_self h) (closed {h = some h} {r = freed} (λ e. cc))

  init-IsSane :
      {h : Option ℕ} {r : Request} {xs : List ℕ} (others : List ℕ)
      → Descriptors h r xs
      → Ensures
          (λ (o : ℕ × Interface). IsSane o.1)
          (init
            (record { handler = h; request = r; opened = xs; others = others })
            name
            socket
            m
            setsockopt)
  unfolding init
  init-IsSane others unused = Ensures->>= (deref (m.alloc 40)) λ b.
      Ensures->>= (write b 0 (name ++ 0 ∷ []))
        λ b'. returns (bound-IsSane socket b' others setsockopt)
  init-IsSane others (closed {h = none} {r = null} n) = absurd (n refl)
  init-IsSane others (closed {h = none} {r = freed} n) = returns (closed n)
  init-IsSane others (closed {h = none} {r = live b} n) = returns (closed n)
  init-IsSane others (closed {h = some h} n) = returns (closed n)
  init-IsSane others one = returns one

hardware_answer-keeps :
    (P : Interface → Type 0) (s : Interface) (request hw_address : Bytes) (a : Answer Bytes)
    → ((b : Bytes) → P (record s { request = live b }))
    → Ensures (λ (o : ℕ × Bytes × Interface). P o.2) (hardware_answer s request hw_address a)
hardware_answer-keeps P s request hw_address (err e) h = returns (h request)
hardware_answer-keeps P s request hw_address (ok union) h =
    Ensures->>= (write request 16 union)
      λ r. Ensures->>= (read r 18 6) λ b. Ensures->>= (write hw_address 0 b) λ hw. returns (h r)

pub hardware-keeps :
    (P : Interface → Type 0) (s : Interface) (r : Request) (hw_address : Bytes)
    (ioctl : Answer Bytes)
    → s.request ≡ r
    → ((b c : Bytes) → r ≡ live b → P (record s { request = live c }))
    → Ensures (λ (o : ℕ × Bytes × Interface). P o.2) (get_hardware_address s hw_address ioctl)
unfolding get_hardware_address
hardware-keeps P s null hw_address ioctl e h = rw e faults
hardware-keeps P s freed hw_address ioctl e h = rw e faults
hardware-keeps P s (live b) hw_address ioctl e h = rw e (
    Ensures->>= (store32 b 16 0)
      λ b'. hardware_answer-keeps P s b' hw_address (on_handler s ioctl) (λ c. h b c refl))

relive :
    {h : Option ℕ} {r : Request} {xs : List ℕ} (b c : Bytes)
    → r ≡ live b
    → Descriptors h r xs
    → Descriptors h (live c) xs
relive b c e unused = cc
relive b c e (closed n) = closed (λ q. cc)
relive b c e one = one

named-keeps :
    (P : Interface → Type 0) (s : Interface) (a : Answer Bytes)
    → P s
    → P (close_handler s)
    → P (named s a).2
named-keeps P s (ok addr) h k = h
named-keeps P s (err e) h k = k

pub connected-keeps :
    (P : Interface → Type 0) (s : Interface) (address : Bytes) (a : Answer (Unit {0}))
    (g : Answer Bytes)
    → P s
    → P (close_handler s)
    → P (connected s address a g).2
connected-keeps P s address (ok u) g h k = named-keeps P s (on_handler s g) h k
connected-keeps P s address (err e) g h k = k

pub Call-IsSane : {s t : Interface} → IsSane s → Call s t → IsSane t
unfolding get_link_local_address dispose
Call-IsSane {s} v (init_call name socket m setsockopt e) =
    Ensures-eq (init-IsSane name socket m setsockopt s.others v) e
Call-IsSane {s} v (hardware_call hw_address ioctl e) =
    Ensures-eq (hardware-keeps IsSane s s.request hw_address ioctl refl (λ b c q. relive b c q v)) e
Call-IsSane {s} v (link_local_call address connect getsockname) =
    connected-keeps IsSane s address (on_handler s connect) getsockname v (close-Descriptors v)
Call-IsSane v dispose_call = close-Descriptors v

CallPath-IsSane : {s t : Interface} → IsSane s → CallPath s t → IsSane t
CallPath-IsSane v no_calls = v
CallPath-IsSane v (then_call r c) = Call-IsSane (CallPath-IsSane v r) c

-- After any calls of the functions of Src/utils.c, with any results of the system calls, that
-- return, the module has one descriptor open at most, and that is `utils_handler`, with the
-- request allocated; if the request is NULL then no descriptor was ever opened.
pub calls-IsSane : {s : Interface} → CallPath not_started s → IsSane s
calls-IsSane r = CallPath-IsSane unused r
