-- ===== src/Interface.antt =====
-- Src/utils.c: the descriptor and the request that the queries of the interface share. What `socket`,
-- `setsockopt`, `ioctl`, `connect` and `getsockname` answer is an argument; on a descriptor that is not
-- open each of them fails with EBADF.
pub mod Calls
pub mod Closed
pub mod Query
pub mod Sizes
mod Tests
use pdrad.Prelude.{
  ℕ, ◌≡◌, List, [], ◌∷◌, ◌++◌, Option, none, some, Bool, true, false, if◌then◌else◌, ◌==◌, ◌||◌,
}
use pdrad.Memory.{Bytes, Ptr, Run, done, fault, Fault, ◌>>=◌, Malloc, deref, read, write, store32}

-- A system call's result, with `errno` where it is -1.
pub data Answer {ℓ} (A : Type ℓ) : Type ℓ where
  ok : A → Answer A
  err : ℕ → Answer A

-- `utils_request`: NULL, a `struct ifreq`, or a pointer to one that was freed.
pub data Request : Type 0 where
  null freed : Request
  live : Bytes → Request

-- `utils_handler`, `none` for -1, `utils_request`, the descriptors that this module has open, and those
-- that the rest of the process has open. A number that this module has closed can come to be one of the
-- others, and the system calls on `utils_handler` then act on that.
pub record Interface : Type 0 where
  pub handler : Option ℕ
  pub request : Request
  pub opened : List ℕ
  pub others : List ℕ

abbrev pub not_started : Interface
not_started = record { handler = none; request = null; opened = []; others = [] }

abbrev pub einval : ℕ
einval = 22

abbrev pub ebadf : ℕ
ebadf = 9

-- `struct ifreq`: the name in 16 bytes, and a union of 24.
abbrev pub sizeof_ifreq : ℕ
sizeof_ifreq = 40

abbrev pub among : ℕ → List ℕ → Bool
among h [] = false
among h (x ∷ xs) = h == x || among h xs

abbrev pub remove : ℕ → List ℕ → List ℕ
remove h [] = []
remove h (x ∷ xs) = if h == x then remove h xs else x ∷ remove h xs

abbrev pub is_open : Option ℕ → List ℕ → Bool
is_open none xs = false
is_open (some h) xs = among h xs

abbrev pub open_with : Option ℕ → List ℕ → List ℕ
open_with none xs = xs
open_with (some h) xs = h ∷ xs

abbrev pub close_in : Option ℕ → List ℕ → List ℕ
close_in none xs = xs
close_in (some h) xs = remove h xs

-- `utils_handler` is an open descriptor of the process.
abbrev pub is_valid : Interface → Bool
is_valid s = is_open s.handler s.opened || is_open s.handler s.others

-- What the kernel answers on `utils_handler`.
abbrev pub on_handler {ℓ} : {A : Type ℓ} → Interface → Answer A → Answer A
on_handler s r = if is_valid s then r else err ebadf

-- `close(utils_handler)`, whoever has that number open; the variable keeps its value.
abbrev pub close_handler : Interface → Interface
close_handler s = record s {
  opened = close_in s.handler s.opened;
  others = close_in s.handler s.others;
}

abbrev pub deref_request : Request → Run Bytes
deref_request null = fault Fault.null_pointer
deref_request freed = fault Fault.dangling_pointer
deref_request (live b) = done b

-- `utils_handler != -1 || utils_request != NULL`
abbrev pub is_started : Option ℕ → Request → Bool
is_started none null = false
is_started none freed = true
is_started none (live b) = true
is_started (some h) r = true

-- After `ioctl`: `hwAddress` takes the first six bytes of `sa_data`, two bytes into the union.
abbrev pub hardware_answer : Interface → Bytes → Bytes → Answer Bytes → Run (ℕ × Bytes × Interface)
hardware_answer s request hw_address (err e) =
    done (e, hw_address, record s { request = live request })
hardware_answer s request hw_address (ok union) = do
  request ← write request 16 union
  bytes ← read request 18 6
  hw_address ← write hw_address 0 bytes
  done (0, hw_address, record s { request = live request })

-- `utils_getHardwareAddressByName`: the result, `hwAddress`, and the state.
unfoldable pub get_hardware_address : Interface → Bytes → Answer Bytes → Run (ℕ × Bytes × Interface)
get_hardware_address s hw_address ioctl = do
  request ← deref_request s.request
  request ← store32 request 16 0
  hardware_answer s request hw_address (on_handler s ioctl)

-- After `setsockopt`.
abbrev pub bound : Interface → Answer (Unit {0}) → ℕ × Interface
bound s (ok _) = (0, s)
bound s (err e) = (e, record (close_handler s) { request = freed })

-- `utils_Init`
unfoldable pub init :
    Interface → Bytes → Option ℕ → Malloc → Answer (Unit {0}) → Run (ℕ × Interface)
init s interface_name socket m setsockopt =
    if is_started s.handler s.request then done (einval, s) else do
      let s = record s { handler = socket; opened = open_with socket s.opened }
      request ← deref (m.alloc sizeof_ifreq)
      request ← write request 0 (interface_name ++ 0 ∷ [])
      let s = record s { request = live request }
      done (bound s (on_handler s setsockopt))

-- `struct in6_addr` of zeros
abbrev pub no_address : Bytes
no_address = 0 ∷ 0 ∷ 0 ∷ 0 ∷ 0 ∷ 0 ∷ 0 ∷ 0 ∷ 0 ∷ 0 ∷ 0 ∷ 0 ∷ 0 ∷ 0 ∷ 0 ∷ 0 ∷ []

-- After `connect`, and after `getsockname`, whose failure is not returned.
abbrev pub named : Interface → Answer Bytes → ℕ × Bytes × Interface
named s (ok addr) = (0, addr, s)
named s (err e) = (0, no_address, close_handler s)

abbrev pub connected : Interface → Bytes → Answer (Unit {0}) → Answer Bytes → ℕ × Bytes × Interface
connected s address (err e) getsockname = (e, address, close_handler s)
connected s address (ok _) getsockname = named s (on_handler s getsockname)

-- `utils_getLinkLocalAddress`
unfoldable pub get_link_local_address :
    Interface → Bytes → Answer (Unit {0}) → Answer Bytes → ℕ × Bytes × Interface
get_link_local_address s address connect getsockname =
    connected s address (on_handler s connect) getsockname

-- `utils_Dispose`: whether `close` succeeds, and the state.
unfoldable pub dispose : Interface → Bool × Interface
dispose s = (is_valid s, close_handler s)

-- Any call, with any answers.
pub data Call (s : Interface) : Interface → Type 0 where
  init_call :
      (name : Bytes) (socket : Option ℕ) (m : Malloc) (setsockopt : Answer (Unit {0})) {e : ℕ}
      {t : Interface}
      → init s name socket m setsockopt ≡ done (e, t)
      → Call s t
  hardware_call :
      (hw_address : Bytes) (ioctl : Answer Bytes) {e : ℕ} {hw : Bytes} {t : Interface}
      → get_hardware_address s hw_address ioctl ≡ done (e, hw, t)
      → Call s t
  link_local_call :
      (address : Bytes) (connect : Answer (Unit {0})) (getsockname : Answer Bytes)
      → Call s (get_link_local_address s address connect getsockname).2
  dispose_call : Call s (dispose s).1

pub data CallPath (s : Interface) : Interface → Type 0 where
  no_calls : CallPath s s
  then_call : {t u : Interface} → CallPath s t → Call t u → CallPath s u
