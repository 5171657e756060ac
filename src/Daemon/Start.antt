-- ===== src/Daemon/Start.antt =====
-- The command line of `main` in Src/test.c, up to the prefix that it stores: an argument is the bytes
-- of its string, without the zero that ends it. `inet_pton` and `atoi` are parameters.
pub mod Arguments
mod Tests
use pdrad.Prelude.{
  ℕ, zero, suc, ◌%◌, List, [], ◌∷◌, Option, none, some, Bool, true, false, if◌then◌else◌, ◌==◌, leb,
  ◌≡◌, not, ◌&&◌, ◌||◌, length,
}
use pdrad.Memory.{Bytes, Ptr, Run, done, fault, Fault, ◌>>=◌, Malloc, deref, write, store8, store32}
use pdrad.Daemon.Advertise.{Message}
use pdrad.Daemon.Lease.{announce_round}

-- What the code relies on of the C library: `inet_pton` finds an address of 16 bytes, or none, and
-- then it writes nothing; `atoi` gives an `int`, here its 32 bits.
pub record Texts : Type 0 where
  pub inet_pton : Bytes → Option Bytes
  pub length-inet_pton :
      (text : Bytes) {addr : Bytes} → inet_pton text ≡ some addr → length addr ≡ 16
  pub atoi : Bytes → ℕ

-- `argv[i]`: NULL stands behind the last argument, and nothing behind that.
unfoldable pub argument : List Bytes → ℕ → Run Ptr
argument [] zero = done none
argument [] (suc i) = fault Fault.out_of_bounds
argument (a ∷ argv) zero = done (some a)
argument (a ∷ argv) (suc i) = argument argv i

-- `*argv[i]`; an empty string has its zero.
abbrev pub first_byte : Bytes → ℕ
first_byte [] = 0
first_byte (c ∷ text) = c

unfoldable pub first_of : List Bytes → ℕ → Run ℕ
unfolding argument
first_of argv i = argument argv i >>= λ p. deref p >>= λ text. done (first_byte text)

-- `useDhcp` and `wanIfName`, and `_prefix`; `none` where `main` returns -1.
abbrev pub Started : Type 0
Started = Option (Bool × Ptr × Bytes)

abbrev pub refused : Run Started
refused = done none

-- Bytes of zeros, as static storage and `{0x00}` have them.
abbrev pub zeros_of : ℕ → Bytes
zeros_of zero = []
zeros_of (suc n) = 0 ∷ zeros_of n

-- `struct in6_addr` of zeros.
abbrev pub no_address : Bytes
no_address = zeros_of 16

abbrev pub or_zeros : Option Bytes → Bytes
or_zeros none = no_address
or_zeros (some addr) = addr

-- The prefix that the mode `s` stores. A text that `inet_pton` refuses leaves the address of zeros.
unfoldable pub static_prefix : Texts → Bytes → Bytes → Bytes → Run Bytes
static_prefix c prefix address len = do
  prefix ← write prefix 9 (or_zeros (c.inet_pton address))
  prefix ← store32 prefix 0 24000
  prefix ← store32 prefix 4 48000
  store8 prefix 8 (c.atoi len)

module _ (c : Texts) where
  -- From the second `if` on, with its condition true.
  unfoldable pub choose : List Bytes → Bytes → Run Started
  unfolding first_of static_prefix
  choose argv prefix = do
    mode ← first_of argv 1
    (if mode == b'd'
        then (argument argv 3 >>= λ wan. done (some (true, wan, prefix)))
        else if mode == b's'
        then (do
          address ← argument argv 3 >>= deref
          len ← argument argv 4 >>= deref
          prefix ← static_prefix c prefix address len
          done (some (false, none, prefix)))
        else refused)

  -- `argc >= 3 || (*argv[1] != 'd' && *argv[2] != 's')`, each test made only where it is needed.
  unfoldable pub enough : List Bytes → Run Bool
  unfolding first_of
  enough argv = if leb 3 (length argv) then done true else do
    mode ← first_of argv 1
    (if not (mode == b'd')
        then (first_of argv 2 >>= λ lan. done (not (lan == b's')))
        else done false)

  unfoldable pub main_arguments : List Bytes → Bytes → Run Started
  unfolding enough choose
  main_arguments argv prefix =
      if leb (length argv) 1
      then refused
      else do ok ← enough argv; (if ok then choose argv prefix else refused)

-- The first announcement after the start.
abbrev announce_started : (ℕ → Malloc) → Bytes → Bytes → Bytes → Started → Run (Option Message)
announce_started ms hardware_addr src_addr dst_addr none = done none
announce_started ms hardware_addr src_addr dst_addr (some (use_dhcp, wan, prefix)) =
    announce_round ms hardware_addr src_addr dst_addr prefix >>= λ message. done (some message)

unfoldable pub start_then_announce :
    Texts → List Bytes → Bytes → (ℕ → Malloc) → Bytes → Bytes → Bytes → Run (Option Message)
unfolding main_arguments
start_then_announce c argv prefix ms hardware_addr src_addr dst_addr =
    main_arguments c argv prefix >>= announce_started ms hardware_addr src_addr dst_addr
