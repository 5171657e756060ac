-- ===== src/Ndp/Options/Format.antt =====
-- The formats of the Neighbour Discovery options (RFC 4861, section 4.6; RFC 4191, section 2.3),
-- against which the code is held. The second byte counts units of eight bytes.
use pdrad.Prelude.{ℕ, ◌*◌, ◌<◌, ◌≡◌, ◌∷◌, ◌++◌, length}
use pdrad.Memory.{Bytes, be32}

abbrev pub link_layer_address : ℕ → Bytes → Bytes
link_layer_address type ether_addr = type ∷ 1 ∷ ether_addr

abbrev pub prefix_information : ℕ → ℕ → ℕ → ℕ → Bytes → Bytes
prefix_information prefix_length flags valid_lifetime preferred_lifetime prefix =
    3 ∷ 4 ∷ prefix_length ∷ flags ∷ be32 valid_lifetime
    ++ be32 preferred_lifetime
    ++ be32 0
    ++ prefix

abbrev pub mtu_option : ℕ → Bytes
mtu_option mtu = 5 ∷ 1 ∷ 0 ∷ 0 ∷ be32 mtu

-- `prefix` holds as many bytes as the option's length leaves room for.
abbrev pub route_information : ℕ → ℕ → ℕ → ℕ → Bytes → Bytes
route_information units prefix_length preference lifetime prefix =
    24 ∷ units ∷ prefix_length ∷ preference ∷ be32 lifetime ++ prefix

-- A block whose second byte tells its length.
pub record IsNdpOption (b : Bytes) : Type 0 where
  pub type : ℕ
  pub units : ℕ
  pub body : Bytes
  pub shape : b ≡ type ∷ units ∷ body
  pub small : units < 256
  pub whole : length b ≡ units * 8
