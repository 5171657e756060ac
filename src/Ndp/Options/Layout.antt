-- ===== src/Ndp/Options/Layout.antt =====
-- What the option constructors leave in memory.
use pdrad.Prelude.{
  ℕ, ◌%◌, ◌<◌, ◌≡◌, ◌≢◌, ◌⊎◌, inl, inr, ◌++◌, none, some, bit_and, arith, length, entries,
}
use pdrad.Memory.{Bytes, done, Malloc, be32}
use pdrad.Memory.Laws.{entries_lem}
use pdrad.Ndp.Options.{
  create_option_link_layer_address_core, create_option_prefix_information, create_option_mtu,
  create_option_advertisement_interval_option,
}
use pdrad.Ndp.Options.Format.{link_layer_address, prefix_information, mtu_option}

module _ (m : Malloc) where
  pub create_option_link_layer_address_core_null :
      (type : ℕ) (ether_addr : Bytes)
      → type ≢ 1
      → type ≢ 2
      → create_option_link_layer_address_core m type ether_addr ≡ done none
  unfolding create_option_link_layer_address_core
  create_option_link_layer_address_core_null type ether_addr h1 h2 = ground arith

  -- For type 1 or 2, an address of 6 bytes, whatever follows it, and an allocation that succeeds,
  -- `ndp_createOptionLinkLayerAddressCore` returns the 8 bytes of the link-layer address option.
  pub create_option_link_layer_address_core_lem :
      (type : ℕ) (ether_addr extra : Bytes) {b : Bytes}
      → (type ≡ 1) ⊎ (type ≡ 2)
      → length ether_addr ≡ 6
      → m.alloc 8 ≡ some b
      → create_option_link_layer_address_core m type (ether_addr ++ extra)
        ≡ done (some (link_layer_address type ether_addr))
  unfolding create_option_link_layer_address_core
  create_option_link_layer_address_core_lem type ether_addr extra {b} (inl one) h e =
      rw (one, e, entries_lem 8 b (m.length-alloc 8 e), entries_lem 6 ether_addr h)
  create_option_link_layer_address_core_lem type ether_addr extra {b} (inr two) h e =
      rw (two, e, entries_lem 8 b (m.length-alloc 8 e), entries_lem 6 ether_addr h)

  -- For a 16-byte prefix, a length below 256 and an allocation that succeeds,
  -- `ndp_createOptionPrefixInformation` returns the 32 bytes of the Prefix Information option,
  -- with all flag bits but L and A cleared and both lifetimes in network order.
  pub create_option_prefix_information_lem :
      (prefix_length flags valid preferred : ℕ) (prefix : Bytes) {b : Bytes}
      → prefix_length < 256
      → length prefix ≡ 16
      → m.alloc 32 ≡ some b
      → create_option_prefix_information m prefix_length flags valid preferred prefix
        ≡ done (
            some
              (prefix_information prefix_length (bit_and flags 0xC0 % 256) valid preferred prefix))
  unfolding create_option_prefix_information
  create_option_prefix_information_lem prefix_length flags valid preferred prefix {b} hp h e =
      rw (e, entries_lem 32 b (m.length-alloc 32 e), entries_lem 16 prefix h) (ground arith)

  pub create_option_mtu_lem :
      (mtu : ℕ) {b : Bytes}
      → m.alloc 8 ≡ some b
      → create_option_mtu m mtu ≡ done (some (mtu_option mtu))
  unfolding create_option_mtu
  create_option_mtu_lem mtu {b} e = rw (e, entries_lem 8 b (m.length-alloc 8 e)) (ground arith)

  -- If the allocation succeeds, `ndp_createOptionAdvertisementIntervalOption` returns a block
  -- whose first four bytes, type, length and reserved field, are what `malloc` left in them, and
  -- whose last four are the interval in network order.
  pub create_option_advertisement_interval_option_lem :
      (interval : ℕ) {b : Bytes}
      → m.alloc 8 ≡ some b
      → create_option_advertisement_interval_option m interval
        ≡ done (some (entries 4 b ++ be32 interval))
  unfolding create_option_advertisement_interval_option
  create_option_advertisement_interval_option_lem interval {b} e =
      rw (e, entries_lem 8 b (m.length-alloc 8 e)) (ground arith)
