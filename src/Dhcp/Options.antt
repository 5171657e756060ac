-- ===== src/Dhcp/Options.antt =====
-- The option constructors of Src/dh_options.c. Each returns a pointer to a block of its own, in
-- host order but for the fields that the code converts.
pub mod Format
pub mod Layout
use pdrad.Prelude.{ℕ, ◌+◌, ◌-◌, ◌%◌, ◌^◌, Option, none, some, if◌then◌else◌, ◌==◌}
use pdrad.Dhcp.Codes.{OptionCode, code}
use pdrad.Memory.{
  Bytes, Ptr, Run, done, fault, ◌>>=◌, Malloc, deref, add64, read, write, store8, store16, store32,
  htobe16, htobe32,
}

-- `sizeof (uint16_t) + sizeof (uint16_t)`
abbrev pub opt_payload_offset : ℕ
opt_payload_offset = 4

-- The packed structs `dh_opt_IA_PD` and `dh_opt_IA_Prefix` without their flexible arrays.
abbrev pub sizeof_ia_pd : ℕ
sizeof_ia_pd = 12

abbrev pub sizeof_ia_prefix : ℕ
sizeof_ia_prefix = 25

abbrev pub sizeof_elapsed_time : ℕ
sizeof_elapsed_time = 2

abbrev pub option_clientid : ℕ
option_clientid = code OptionCode.clientid

abbrev pub option_serverid : ℕ
option_serverid = code OptionCode.serverid

abbrev pub option_elapsed_time : ℕ
option_elapsed_time = code OptionCode.elapsed_time

abbrev pub option_rapid_commit : ℕ
option_rapid_commit = code OptionCode.rapid_commit

abbrev pub option_ia_pd : ℕ
option_ia_pd = code OptionCode.ia_pd

abbrev pub option_iaprefix : ℕ
option_iaprefix = code OptionCode.iaprefix

abbrev pub duid_en : ℕ
duid_en = 2

-- `if (source != NULL) memcpy(block + offset, source, n)`
copy_unless_null : Bytes → ℕ → Ptr → ℕ → Run Bytes
copy_unless_null block offset none n = done block
copy_unless_null block offset (some source) n = do bytes ← read source 0 n; write block offset bytes

-- The branch of the IA_PD option on `prefixOptions`: its `Options` start at byte 16 of the block.
put_prefix_options : Bytes → Ptr → ℕ → Run Bytes
put_prefix_options payload none n = store16 payload 2 sizeof_ia_pd
put_prefix_options payload (some options) n = do
  bytes ← read options 0 n
  payload ← write payload 16 bytes
  store16 payload 2 (add64 sizeof_ia_pd n)

module _ (m : Malloc) where
  -- `OptionLength` takes the low 16 bits of the length.
  unfoldable pub create_custom_opt_payload : ℕ → Ptr → ℕ → Run Ptr
  unfolding copy_unless_null
  create_custom_opt_payload option_code option_data option_data_length = do
    payload ← deref (m.alloc (add64 option_data_length opt_payload_offset))
    payload ← store16 payload 0 option_code
    payload ← store16 payload 2 option_data_length
    payload ← copy_unless_null payload 4 option_data option_data_length
    done (some payload)

  unfoldable pub create_opt_payload : ℕ → Ptr → ℕ → Run Ptr
  unfolding create_custom_opt_payload
  create_opt_payload option_code option_data option_data_length =
      create_custom_opt_payload option_code option_data option_data_length

  -- The option data starts at byte 4 of the block.
  unfoldable pub create_option_ia_pd : ℕ → Ptr → ℕ → Run Ptr
  unfolding put_prefix_options
  create_option_ia_pd id prefix_options prefix_options_length = do
    payload ← deref (m.alloc (sizeof_ia_pd + opt_payload_offset))
    payload ← store32 payload 4 (htobe32 id)
    payload ← store32 payload 8 0
    payload ← store32 payload 12 0
    payload ← store16 payload 0 option_ia_pd
    payload ← put_prefix_options payload prefix_options prefix_options_length
    done (some payload)

  -- `htobe16` narrows both lifetimes, which are 32 bits wide.
  unfoldable pub create_option_iaprefix : ℕ → ℕ → ℕ → Bytes → Run Ptr
  create_option_iaprefix preferred_time valid_time prefix_length prefix = do
    let option_length : ℕ = sizeof_ia_prefix - 1
    payload ← deref (m.alloc (option_length + opt_payload_offset))
    payload ← store16 payload 0 option_iaprefix
    payload ← store16 payload 2 option_length
    payload ← store32 payload 4 (htobe16 preferred_time)
    payload ← store32 payload 8 (htobe16 valid_time)
    payload ← store8 payload 12 prefix_length
    address ← read prefix 0 16
    payload ← write payload 13 address
    done (some payload)

  unfoldable pub create_option_rapid_commit : Run Ptr
  unfolding create_opt_payload
  create_option_rapid_commit = create_opt_payload option_rapid_commit none 0

  unfoldable pub create_option_client_identifier_en : ℕ → Bytes → ℕ → Run Ptr
  create_option_client_identifier_en enterprise_number id id_length =
      if id_length == 0 then done none else do
        payload ← deref (m.alloc (add64 (opt_payload_offset + 2 + 4) id_length))
        payload ← store16 payload 0 option_clientid
        payload ← store16 payload 2 (add64 (2 + 4) id_length)
        payload ← store16 payload 4 (htobe16 duid_en)
        payload ← store32 payload 6 (htobe32 enterprise_number)
        bytes ← read id 0 id_length
        payload ← write payload 10 bytes
        done (some payload)

  unfoldable pub create_option_elapsed_time : ℕ → Run Ptr
  create_option_elapsed_time time = do
    payload ← deref (m.alloc (opt_payload_offset + sizeof_elapsed_time))
    payload ← store16 payload 0 option_elapsed_time
    payload ← store16 payload 2 sizeof_elapsed_time
    payload ← store16 payload 4 (htobe16 time)
    done (some payload)
