-- ===== src/Dhcp/Packets.antt =====
-- The packet writers of Src/dh_packets.c.
pub mod Wire
pub mod Solicit
use pdrad.Prelude.{
  ℕ, zero, suc, ◌+◌, ◌-◌, ◌*◌, ◌/◌, ◌%◌, ◌^◌, List, [], ◌∷◌, ◌++◌, Option, none, some, bit_xor,
  Bool, true, false, if◌then◌else◌, leb, ◌||◌, length,
}
use pdrad.Memory.{
  Bytes, Ptr, Run, done, fault, Fault, ◌>>=◌, Malloc, deref, add64, add32, read, write, load16,
  store8, store16, htobe16,
}
use pdrad.Dhcp.Options.{
  create_custom_opt_payload, create_option_elapsed_time, create_option_ia_pd,
  create_option_rapid_commit, option_clientid,
}

-- `enum dh_msgType`
pub data MsgType : Type 0 where
  solicit advertise request confirm renew rebind reply release decline reconfigure : MsgType
  information_request relay_forw relay_repl : MsgType

abbrev pub msg_code : MsgType → ℕ
msg_code MsgType.solicit = 1
msg_code MsgType.advertise = 2
msg_code MsgType.request = 3
msg_code MsgType.confirm = 4
msg_code MsgType.renew = 5
msg_code MsgType.rebind = 6
msg_code MsgType.reply = 7
msg_code MsgType.release = 8
msg_code MsgType.decline = 9
msg_code MsgType.reconfigure = 10
msg_code MsgType.information_request = 11
msg_code MsgType.relay_forw = 12
msg_code MsgType.relay_repl = 13

-- `dh_pkt_TransactionId`
pub record TransactionId : Type 0 where
  pub id_0 : ℕ
  pub id_1 : ℕ
  pub id_2 : ℕ

abbrev pub id_bytes : TransactionId → Bytes
id_bytes t = t.id_0 % 256 ∷ t.id_1 % 256 ∷ t.id_2 % 256 ∷ []

-- The header of the option at an offset, each field replaced by its byte swap.
unfoldable pub swap_header : Bytes → ℕ → Run Bytes
swap_header buffer at = do
  code ← load16 buffer at
  buffer ← store16 buffer at (htobe16 code)
  len ← load16 buffer (at + 2)
  store16 buffer (at + 2) (htobe16 len)

-- The first loop: the length of the packet.
unfoldable pub packet_length : List Ptr → ℕ → Run ℕ
packet_length [] total = done total
packet_length (p ∷ ps) total = do
  payload ← deref p
  option_length ← load16 payload 2
  packet_length ps (add64 total (option_length + 4))

-- The second loop: copies each option behind the last and puts its header in network order.
-- The options start at byte 4 of the packet.
unfoldable pub copy_options : List Ptr → Bytes → ℕ → Run Bytes
copy_options [] packet option_offset = done packet
copy_options (p ∷ ps) packet option_offset = do
  payload ← deref p
  option_length ← load16 payload 2
  bytes ← read payload 0 (option_length + 4)
  packet ← write packet (4 + option_offset) bytes
  packet ← swap_header packet (4 + option_offset)
  copy_options ps packet (add64 option_offset (option_length + 4))

-- What a writer returns, and what it leaves in `*pktPtr`.
abbrev pub Written : Type 0
Written = ℕ × Ptr

-- `(size_t) -1`
abbrev pub minus_one : ℕ
minus_one = 2 ^ 64 - 1

module _ (m : Malloc) where
  unfoldable pub create_packet : MsgType → TransactionId → List Ptr → Run Written
  create_packet msg_type trans_id options = do
    total ← packet_length options 4
    packet ← deref (m.alloc total)
    packet ← store8 packet 0 (msg_code msg_type)
    packet ← write packet 1 (id_bytes trans_id)
    packet ← copy_options options packet 0
    done (total, some packet)

-- The loop that fills `optionsPtrList` from its fourth entry on, with `va_arg` for each. A pointer
-- takes eight bytes of the table; reading past the arguments is a fault.
fill_table : Bytes → ℕ → ℕ → List Ptr → Run (List Ptr)
fill_table table i zero args = done []
fill_table table i (suc n) [] = fault Fault.out_of_bounds
fill_table table i (suc n) (p ∷ args) =
    if leb (8 * add32 i 3 + 8) (length table)
    then fill_table table (i + 1) n args >>= (λ ps. done (p ∷ ps))
    else fault Fault.out_of_bounds

-- The table is not touched when there is nothing to copy.
customized_options : Ptr → ℕ → List Ptr → Run (List Ptr)
unfolding fill_table
customized_options table zero args = done []
customized_options table (suc n) args = do t ← deref table; fill_table t 0 (suc n) args

-- `timespec_get` gives seconds and nanoseconds or fails, and `random` answers for the seed that
-- `srandom` was given.
pub record Environment : Type 0 where
  pub clock : Option (ℕ × ℕ)
  pub random : ℕ → ℕ

-- Three bytes of a `long`, as `memcpy` takes them.
abbrev pub trans_id_of : ℕ → TransactionId
trans_id_of r = record { id_0 = r % 256; id_1 = r / 256 % 256; id_2 = r / 65536 % 256 }

abbrev is_null : Ptr → Bool
is_null none = true
is_null (some b) = false

-- The allocations of a run, numbered: each may answer otherwise.
module _ (ms : ℕ → Malloc) (env : Environment) where
  -- What follows the copy of the arguments. The first three entries of the table are written last.
  finish_solicit : Ptr → Ptr → List Ptr → List Ptr → Run Written
  unfolding create_packet
  finish_solicit old table required customized = elim env.clock [
    | none ↦ done (minus_one, old)
    | some (sec, nsec) ↦ do
      t ← deref table
      create_packet (ms 1) MsgType.solicit (trans_id_of (env.random (bit_xor nsec sec % 2 ^ 32)))
          (required ++ customized)
  ]

  -- `old` is what `*pktPtr` held. The table of `optionsNum + 3` pointers is allocation 0, the packet
  -- allocation 1.
  unfoldable pub create_customized_solicit_packet :
      Ptr → Ptr → Ptr → Ptr → ℕ → List Ptr → Run Written
  unfolding finish_solicit customized_options
  create_customized_solicit_packet old client_id elapsed_time ia_pd options_num args =
      let table = (ms 0).alloc (8 * add32 options_num 3) in
      if is_null client_id || is_null elapsed_time || is_null ia_pd
      then done (minus_one, old)
      else do
        customized ← customized_options table options_num args
        finish_solicit old table (client_id ∷ elapsed_time ∷ ia_pd ∷ []) customized

  -- The packets with the three required options, allocations 2 to 4, and the Rapid Commit option,
  -- allocation 5.
  unfoldable pub create_solicit_packet : Ptr → Ptr → ℕ → ℕ → ℕ → Run Written
  unfolding create_customized_solicit_packet
  create_solicit_packet old client_id client_size elapsed_time ia_id = do
    client ← create_custom_opt_payload (ms 2) option_clientid client_id client_size
    elapsed ← create_option_elapsed_time (ms 3) elapsed_time
    ia_pd ← create_option_ia_pd (ms 4) ia_id none 0
    create_customized_solicit_packet old client elapsed ia_pd 0 []

  unfoldable pub create_rapid_solicit_packet : Ptr → Ptr → ℕ → ℕ → ℕ → Run Written
  unfolding create_customized_solicit_packet
  create_rapid_solicit_packet old client_id client_size elapsed_time ia_id = do
    rapid ← create_option_rapid_commit (ms 5)
    client ← create_custom_opt_payload (ms 2) option_clientid client_id client_size
    elapsed ← create_option_elapsed_time (ms 3) elapsed_time
    ia_pd ← create_option_ia_pd (ms 4) ia_id none 0
    create_customized_solicit_packet old client elapsed ia_pd 1 (rapid ∷ [])

-- `dh_createCustomizedRequestPacket` is not written yet.
unfoldable pub create_customized_request_packet : Ptr → Ptr → ℕ → ℕ → Run Written
create_customized_request_packet old client_id elapsed_time ia_id = done (minus_one, old)
