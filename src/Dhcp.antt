-- ===== src/Dhcp.antt =====
-- DHCPv6: options (Src/dh_options.c, Inc/dh_options.h) and packets (Src/dh_packets.c).
pub mod Codes
pub mod Options
pub mod Packets
pub mod Parse
mod Tests
