-- ===== src/Dhcp/Parse.antt =====
-- `dh_parseOptions` of Src/dh_packets.c. The packet is a buffer of which the first `size` bytes were
-- received; a pointer into it is its offset from the packet's first byte.
pub mod Total
pub mod Safe
pub mod Reads
pub mod RoundTrip
pub mod Prefix
pub mod Edges
use pdrad.Prelude.{
  ℕ, zero, suc, ◌+◌, ◌-◌, ◌*◌, ◌/◌, ◌%◌, ◌^◌, List, [], ◌∷◌, Option, none, some, Bool, true, false,
  if◌then◌else◌, ltb, ◌==◌, not, ◌&&◌,
}
use pdrad.Memory.{Bytes, Run, done, fault, Fault, ◌>>=◌, add64, sub64, load8, load16}
use pdrad.Dhcp.Options.{option_clientid, option_serverid, option_ia_pd}
use pdrad.Dhcp.Packets.{swap_header, MsgType, msg_code}

-- `dh_parsedOptions`. The linked list of IA_PD options is a list of their offsets.
pub record ParsedOptions : Type 0 where
  pub success : Bool
  pub client_identifier : Option ℕ
  pub server_identifier : Option ℕ
  pub ia_pd_list : List ℕ
  pub elapsed_time : Option ℕ

abbrev pub nothing_parsed : ParsedOptions
nothing_parsed = record {
  success = false;
  client_identifier = none;
  server_identifier = none;
  ia_pd_list = [];
  elapsed_time = none;
}

-- `pkt->MsgType != dh_ADVERTISE && pkt->MsgType != dh_REPLY`
abbrev pub wrong_type : ℕ → Bool
wrong_type t = not (t == msg_code MsgType.advertise) && not (t == msg_code MsgType.reply)

-- The walk to the end of the linked list, where the new node goes.
unfoldable pub append_node : List ℕ → ℕ → List ℕ
append_node [] at = at ∷ []
append_node (x ∷ xs) at = x ∷ append_node xs at

-- What a round of the loop ends with: the buffer and the result, or also the next pointer and the
-- number of bytes left.
pub data Round : Type 0 where
  stop : Bytes → ParsedOptions → Round
  next : Bytes → ℕ → ℕ → ParsedOptions → Round

-- The loop goes on, or ends with `break`.
abbrev pub after_round :
    (Bytes → ℕ → ℕ → ParsedOptions → Run (Bytes × ParsedOptions))
    → Round
    → Run (Bytes × ParsedOptions)
after_round loop (Round.stop buffer result) = done (buffer, result)
after_round loop (Round.next buffer reader unread result) = loop buffer reader unread result

-- The `switch`. `node_fits` says for each option whether there is memory for a list node.
unfoldable pub record_option : (ℕ → Bool) → ℕ → ℕ → ParsedOptions → ParsedOptions
unfolding append_node
record_option node_fits code at result =
    if code == option_clientid
    then record result { client_identifier = some at }
    else if code == option_serverid
    then record result { server_identifier = some at }
    else if code == option_ia_pd
    then (if node_fits at
        then record result { success = false; ia_pd_list = append_node result.ia_pd_list at }
        else record result { success = false })
    else result

-- `base` is the address of the packet.
module _ (node_fits : ℕ → Bool) (base size : ℕ) where
  -- After an option: the bytes left, and the check that the pointer stays in the packet.
  unfoldable pub advance : Bytes → ℕ → ℕ → ℕ → ParsedOptions → Round
  advance buffer reader unread payload_length result =
      let left = sub64 unread payload_length in
      let reader' = reader + payload_length in
      if left == 0
      then Round.stop buffer result
      else if ltb (add64 base size) (add64 base reader')
      then Round.stop buffer result
      else Round.next buffer reader' left result

  -- One round: the header of the option at `reader` is put in host order, and the option recorded.
  unfoldable pub parse_round : Bytes → ℕ → ℕ → ParsedOptions → Run Round
  parse_round buffer reader unread result = do
    buffer ← swap_header buffer reader
    option_code ← load16 buffer reader
    option_length ← load16 buffer (reader + 2)
    done (
        advance buffer reader unread (option_length + 4)
          (record_option node_fits option_code reader result))

  -- `while (true)`, on fuel.
  unfoldable pub parse_loop : ℕ → Bytes → ℕ → ℕ → ParsedOptions → Run (Bytes × ParsedOptions)
  parse_loop zero buffer reader unread result = fault Fault.endless
  parse_loop (suc fuel) buffer reader unread result =
      parse_round buffer reader unread result >>= after_round (parse_loop fuel)

  -- The loop and what follows it. Each round but the last moves the reader by four bytes at least and
  -- not past `size`, so that `size` rounds and one are enough.
  unfoldable pub parse_content : Bytes → ℕ → Run (Bytes × ParsedOptions)
  unfolding parse_loop
  parse_content pkt unread = do
    (pkt', result) ← parse_loop (suc size) pkt 4 unread nothing_parsed
    done (pkt', record result { success = true })

  -- `dh_parseOptions`, with the buffer as it leaves it.
  unfoldable pub parse_options : Bytes → Run (Bytes × ParsedOptions)
  unfolding parse_content
  parse_options pkt =
      let unread = sub64 size 4 in
      if unread == 0 then done (pkt, nothing_parsed) else (do
        msg_type ← load8 pkt 0
        (if wrong_type msg_type then done (pkt, nothing_parsed) else parse_content pkt unread))
