-- ===== src/Dhcp/Options/Format.antt =====
-- The format of a DHCPv6 option (RFC 8415, section 21.1), against which the code is held.
use pdrad.Prelude.{ℕ, ◌<◌, ◌++◌, length}
use pdrad.Memory.{Bytes, le16, be16}

-- A DHCPv6 option, and its layout in memory and on the wire (RFC 8415, section 21.1).
pub record DhOption : Type 0 where
  pub code : ℕ
  pub bytes : Bytes

pub record IsOption (o : DhOption) : Type 0 where
  pub code_fits : o.code < 65536
  pub length_fits : length o.bytes < 65536

abbrev pub host_option : DhOption → Bytes
host_option o = le16 o.code ++ le16 (length o.bytes) ++ o.bytes

abbrev pub wire_option : DhOption → Bytes
wire_option o = be16 o.code ++ be16 (length o.bytes) ++ o.bytes

abbrev pub option : ℕ → Bytes → DhOption
option code bytes = record { code = code; bytes = bytes }
