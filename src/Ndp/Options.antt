-- ===== src/Ndp/Options.antt =====
-- The option constructors of Src/ndp_options.c. The fields of an option that are wider than a byte
-- are in network order as soon as it is built.
pub mod Format
pub mod Layout
pub mod Route
use pdrad.Prelude.{
  ℕ, ◌+◌, ◌-◌, ◌*◌, ◌/◌, Option, none, some, bit_and, if◌then◌else◌, ◌==◌, not, ◌&&◌,
}
use pdrad.Memory.{
  Bytes, Ptr, Run, done, fault, ◌>>=◌, Malloc, deref, read, write, store8, store16, store32,
  htobe32,
}

-- `ndp_optOffset` and the packed structs.
abbrev pub opt_offset : ℕ
opt_offset = 2

abbrev pub sizeof_prefix_information : ℕ
sizeof_prefix_information = 30

abbrev pub sizeof_mtu : ℕ
sizeof_mtu = 6

-- `enum ndp_opt_PrefixInformationFlag`
abbrev pub flag_l : ℕ
flag_l = 0b1000_0000

abbrev pub flag_a : ℕ
flag_a = 0b0100_0000

abbrev pub flag_r : ℕ
flag_r = 0b1100_0000

-- `NDP_OPT_ADVERTISEMENT_INTERVAL_PROP_LEN` and `NDP_OPT_ROUTE_INFORMATION_PROP_LEN`
abbrev pub advertisement_interval_prop_len : ℕ
advertisement_interval_prop_len = 1

abbrev pub route_information_prop_len : ℕ
route_information_prop_len = 1

-- The length of a Route Information option, in units of eight bytes.
unfoldable pub route_prop_len : ℕ → ℕ
route_prop_len prefix_length =
    if not (prefix_length == 0)
    then route_information_prop_len + (prefix_length / 64 + 1)
    else route_information_prop_len

module _ (m : Malloc) where
  unfoldable pub create_option_link_layer_address_core : ℕ → Bytes → Run Ptr
  create_option_link_layer_address_core type ether_addr =
      if not (type == 1) && not (type == 2) then done none else do
        option ← deref (m.alloc (opt_offset + 6))
        option ← store8 option 0 type
        option ← store8 option 1 1
        address ← read ether_addr 0 6
        option ← write option 2 address
        done (some option)

  unfoldable pub create_option_source_link_layer_address : Bytes → Run Ptr
  unfolding create_option_link_layer_address_core
  create_option_source_link_layer_address ether_addr =
      create_option_link_layer_address_core 1 ether_addr

  unfoldable pub create_option_target_link_layer_address : Bytes → Run Ptr
  unfolding create_option_link_layer_address_core
  create_option_target_link_layer_address ether_addr =
      create_option_link_layer_address_core 2 ether_addr

  unfoldable pub create_option_prefix_information : ℕ → ℕ → ℕ → ℕ → Bytes → Run Ptr
  create_option_prefix_information prefix_length flags valid_lifetime preferred_lifetime prefix = do
    option ← deref (m.alloc (opt_offset + sizeof_prefix_information))
    option ← store8 option 0 3
    option ← store8 option 1 4
    option ← store8 option 2 prefix_length
    option ← store8 option 3 (bit_and flags 0xC0)
    option ← store32 option 4 (htobe32 valid_lifetime)
    option ← store32 option 8 (htobe32 preferred_lifetime)
    option ← store32 option 12 0
    address ← read prefix 0 16
    option ← write option 16 address
    done (some option)

  unfoldable pub create_option_mtu : ℕ → Run Ptr
  create_option_mtu mtu = do
    option ← deref (m.alloc (opt_offset + sizeof_mtu))
    option ← store8 option 0 5
    option ← store8 option 1 1
    option ← store16 option 2 0
    option ← store32 option 4 (htobe32 mtu)
    done (some option)

  -- Only the interval is stored.
  unfoldable pub create_option_advertisement_interval_option : ℕ → Run Ptr
  create_option_advertisement_interval_option interval = do
    option ← deref (m.alloc (advertisement_interval_prop_len * 8))
    option ← store32 option 4 (htobe32 interval)
    done (some option)

  -- A prefix length above 128 is noticed and not refused.
  unfoldable pub create_option_route_information : ℕ → ℕ → ℕ → Bytes → Run Ptr
  create_option_route_information prefix_length route_preference route_lifetime prefix = do
    let prop_len = route_prop_len prefix_length
    option ← deref (m.alloc (prop_len * 8))
    option ← store8 option 0 24
    option ← store8 option 1 prop_len
    option ← store8 option 2 prefix_length
    option ← store8 option 3 route_preference
    option ← store32 option 4 (htobe32 route_lifetime)
    (if prefix_length == 0 then done (some option) else do
      address ← read prefix 0 ((prop_len - 1) * 8)
      option ← write option 8 address
      done (some option))
