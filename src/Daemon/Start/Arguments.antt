-- ===== src/Daemon/Start/Arguments.antt =====
-- What the command line leads to.
use pdrad.Prelude.{
  ℕ, ◌%◌, ◌≡◌, ◌≢◌, refl, ap, List, [], ◌∷◌, ◌++◌, Option, none, some, true, false, ◌==◌, leb,
  arith, length,
}
use pdrad.Memory.{Bytes, done, fault, Fault, ◌>>=◌, Malloc}
use pdrad.Memory.Laws.{entries_lem}
use pdrad.Daemon.Advertise.Wire.{advertisement}
use pdrad.Daemon.Lease.Rounds.{shared_bytes, announce_round_lem}
use pdrad.Daemon.Start.{
  Texts, first_byte, static_prefix, main_arguments, start_then_announce, or_zeros, zeros_of,
}

-- The address that a text stands for, or zeros.
abbrev pub address_of : Texts → Bytes → Bytes
address_of c text = or_zeros (c.inet_pton text)

length-or_zeros :
    (c : Texts) (text : Bytes) (o : Option Bytes) → c.inet_pton text ≡ o → length (or_zeros o) ≡ 16
length-or_zeros c text none e = refl
length-or_zeros c text (some addr) e = c.length-inet_pton text e

pub length-address_of : (c : Texts) (text : Bytes) → length (address_of c text) ≡ 16
length-address_of c text = length-or_zeros c text (c.inet_pton text) refl

static_prefix_lem :
    (c : Texts) (address len : Bytes)
    → static_prefix c (zeros_of 25) address len
      ≡ done (shared_bytes 24000 48000 (c.atoi len % 256) (address_of c address))
unfolding static_prefix
static_prefix_lem c address len =
    rw (entries_lem 16 (address_of c address) (length-address_of c address))

-- `argv` is the program's name, a text that starts with `s`, and three more arguments at least.
pub main_arguments_static :
    (c : Texts) (name mode lan address len : Bytes) (more : List Bytes)
    → main_arguments c (name ∷ (b's' ∷ mode) ∷ lan ∷ address ∷ len ∷ more) (zeros_of 25)
      ≡ done
          (some (false, none, shared_bytes 24000 48000 (c.atoi len % 256) (address_of c address)))
unfolding main_arguments
main_arguments_static c name mode lan address len more =
    let some_args : leb (length (name ∷ (b's' ∷ mode) ∷ lan ∷ address ∷ len ∷ more)) 1 ≡ false =
      ground arith in
    let three : leb 3 (length (name ∷ (b's' ∷ mode) ∷ lan ∷ address ∷ len ∷ more)) ≡ true =
      ground arith in
    rw (some_args, three)
      (ap (λ m. m >>= λ p. done (some (false, none, p))) (static_prefix_lem c address len))

pub main_arguments_dhcp :
    (c : Texts) (name mode lan wan prefix : Bytes) (more : List Bytes)
    → main_arguments c (name ∷ (b'd' ∷ mode) ∷ lan ∷ wan ∷ more) prefix
      ≡ done (some (true, some wan, prefix))
unfolding main_arguments
main_arguments_dhcp c name mode lan wan prefix more =
    let some_args : leb (length (name ∷ (b'd' ∷ mode) ∷ lan ∷ wan ∷ more)) 1 ≡ false =
      ground arith in
    let three : leb 3 (length (name ∷ (b'd' ∷ mode) ∷ lan ∷ wan ∷ more)) ≡ true = ground arith in
    rw (some_args, three)

-- Too few arguments for the mode.
pub data Lacking : List Bytes → Type 0 where
  no_lan : (name mode : Bytes) → first_byte mode ≢ b'd' → Lacking (name ∷ mode ∷ [])
  no_address_given : (name mode lan : Bytes) → Lacking (name ∷ (b's' ∷ mode) ∷ lan ∷ [])
  no_length_given :
      (name mode lan address : Bytes) → Lacking (name ∷ (b's' ∷ mode) ∷ lan ∷ address ∷ [])

-- With no interface on the command line and a first argument that does not start with `d`, or with
-- `s` and no prefix or no length behind the interface, `main` reads a string through NULL.
pub main_arguments-Lacking :
    (c : Texts) (argv : List Bytes) (prefix : Bytes)
    → Lacking argv
    → main_arguments c argv prefix ≡ fault Fault.null_pointer
unfolding main_arguments
main_arguments-Lacking c argv prefix (no_lan name mode n) =
    let other : (first_byte mode == b'd') ≡ false = ground arith in rw other
main_arguments-Lacking c argv prefix (no_address_given name mode lan) = refl
main_arguments-Lacking c argv prefix (no_length_given name mode lan address) = refl

-- With `s`, an interface, an address and a length on the command line, any further arguments,
-- `_prefix` zero, no allocation failing, a hardware address of 6 bytes and the others of 16, the
-- first advertisement goes to the destination with hop limit 255 and announces that address with
-- the lowest eight bits of the length, valid for 48000 and preferred for 24000 seconds; a text
-- that `inet_pton` refuses is announced as the address of zeros.
pub start_then_announce_lem :
    (c : Texts) (name mode lan address len : Bytes) (more : List Bytes) (ms : ℕ → Malloc)
    (mac extra link_local dst : Bytes) {b0 b1 b2 b3 b4 : Bytes}
    → length mac ≡ 6
    → length link_local ≡ 16
    → length dst ≡ 16
    → (ms 0).alloc 32 ≡ some b0
    → (ms 1).alloc 16 ≡ some b1
    → (ms 2).alloc 8 ≡ some b2
    → (ms 3).alloc 8 ≡ some b3
    → (ms 4).alloc 80 ≡ some b4
    → start_then_announce c
        (name ∷ (b's' ∷ mode) ∷ lan ∷ address ∷ len ∷ more)
        (zeros_of 25)
        ms
        (mac ++ extra)
        link_local
        dst
      ≡ done (
          some (record {
            destination = dst;
            hop_limit = 255;
            payload = advertisement mac (address_of c address) (c.atoi len % 256) 48000 24000;
          }))
unfolding start_then_announce
start_then_announce_lem c name mode lan address len more ms mac extra link_local dst hm hl hd e0 e1
      e2 e3 e4 =
    rw (main_arguments_static c name mode lan address len more) (
      ap (λ r. r >>= λ message. done (some message))
        (announce_round_lem ms mac extra link_local dst (address_of c address) (c.atoi len % 256)
          48000 24000 hm hl hd (length-address_of c address) (omega arith) (omega arith) e0 e1 e2 e3
          e4))
