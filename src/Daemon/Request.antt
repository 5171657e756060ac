-- ===== src/Daemon/Request.antt =====
-- `requestAndReceiveDhcp` and `print_memory_hex` of Src/test.c. The results of `sendto` and
-- `recvfrom` are parameters; closing the socket and freeing the options leave no trace.
pub mod Exchange
pub mod Sent
pub mod Returned
pub mod Delegated
pub mod Fatal
use pdrad.Prelude.{
  ℕ, zero, suc, ◌+◌, ◌-◌, ◌^◌, List, [], ◌∷◌, Option, none, some, Bool, true, false, if◌then◌else◌,
  length,
}
use pdrad.Memory.{
  Bytes, Ptr, Run, done, fault, Fault, ◌>>=◌, Malloc, deref, peek, read, write, load8,
}
use pdrad.Dhcp.Options.{
  create_option_client_identifier_en, create_option_elapsed_time, create_option_ia_pd,
  create_option_rapid_commit,
}
use pdrad.Dhcp.Packets.{Environment, create_customized_solicit_packet}
use pdrad.Dhcp.Parse.{ParsedOptions, parse_options}

-- The bytes that are printed.
unfoldable pub print_memory_hex : Ptr → ℕ → Run Bytes
print_memory_hex mem zero = done []
print_memory_hex mem (suc n) = deref mem >>= λ bytes. peek bytes (suc n)

-- Whether `sendto` succeeds, and what `recvfrom` puts into the buffer; it puts there at most
-- `bufferLength` bytes. `none` is its result -1.
pub record Network : Type 0 where
  pub sendto : Bool
  pub recvfrom : Option Bytes

-- How the function ends: `exit`, or a result with what was given to `sendto`, the buffer, and the 25
-- bytes of the prefix, `none` where the caller's prefix is left alone.
pub data Outcome : Type 0 where
  exited : Outcome
  returned : ℕ → Bytes → Bytes → Option Bytes → Outcome

-- `parsed.IA_PDList->value`
abbrev pub first_ia_pd : List ℕ → Run ℕ
first_ia_pd [] = fault Fault.null_pointer
first_ia_pd (x ∷ xs) = done x

-- The buffer after `recvfrom`, and its result as a `size_t`.
abbrev pub received_buffer : Bytes → Option Bytes → Run Bytes
received_buffer buffer none = done buffer
received_buffer buffer (some bytes) = write buffer 0 bytes

abbrev pub received_length : Option Bytes → ℕ
received_length none = 2 ^ 64 - 1
received_length (some bytes) = length bytes

-- The identifier of the client, and that of its IA_PD.
abbrev pub client_enterprise : ℕ
client_enterprise = 4107

abbrev pub client_identifier : Bytes
client_identifier = 0x0d ∷ 0x00 ∷ 0x07 ∷ 0x21 ∷ []

abbrev pub client_ia_id : ℕ
client_ia_id = 0xd0007021

abbrev is_null : Ptr → Bool
is_null none = true
is_null (some b) = false

module _ (node_fits : ℕ → Bool) (base : ℕ) where
  -- From the call of `recvfrom` on. The IA_PD's data starts 4 bytes behind its place, its options 12
  -- bytes further on, and the data of the first of these 4 bytes behind that. A failed parse is only
  -- logged.
  unfoldable pub receive_reply : Bytes → Option Bytes → Run (Bytes × Bytes)
  unfolding print_memory_hex
  receive_reply buffer recvfrom = do
    buffer ← received_buffer buffer recvfrom
    shown ← print_memory_hex (some buffer) (received_length recvfrom)
    msg_type ← load8 buffer 0
    id_0 ← load8 buffer 1
    id_1 ← load8 buffer 2
    id_2 ← load8 buffer 3
    (buffer', parsed) ← parse_options node_fits base (received_length recvfrom) buffer
    pd ← first_ia_pd parsed.ia_pd_list
    prefix ← read buffer' (pd + 4 + 12 + 4) 25
    done (buffer', prefix)

  -- The packet is printed, sent, and the answer received.
  unfoldable pub exchange : Network → Bytes → ℕ → Ptr → Run Outcome
  unfolding receive_reply
  exchange net buffer pkt_length pkt = do
    shown ← print_memory_hex pkt pkt_length
    packet ← deref pkt
    sent ← read packet 0 pkt_length
    (if net.sendto
        then (do
          (buffer', prefix) ← receive_reply buffer net.recvfrom
          done (Outcome.returned 0 sent buffer' (some prefix)))
        else done (Outcome.returned 1 sent buffer none))

  -- The allocations 0 and 1 are those of the packet, 2 to 5 those of the options.
  unfoldable pub request_and_receive_dhcp :
      (ℕ → Malloc) → Environment → Network → Bytes → Run Outcome
  unfolding exchange
  request_and_receive_dhcp ms env net buffer = do
    client_id ← create_option_client_identifier_en (ms 2) client_enterprise client_identifier 4
    (if is_null client_id then done Outcome.exited else do
      es_time ← create_option_elapsed_time (ms 3) 0
      (if is_null es_time then done Outcome.exited else do
        ia_prefix ← create_option_ia_pd (ms 4) client_ia_id none 0
        (if is_null ia_prefix then done Outcome.exited else do
          rapid ← create_option_rapid_commit (ms 5)
          (if is_null rapid then done Outcome.exited else do
            (pkt_length, pkt) ←
                create_customized_solicit_packet ms env none client_id es_time ia_prefix 1
                  (rapid ∷ [])
            exchange net buffer pkt_length pkt))))
