-- ===== src/Ndp.antt =====
-- Neighbour Discovery: options (Src/ndp_options.c, Inc/ndp_options.h) and the Router Advertisement
-- (Src/ndp_packets.c, Inc/ndp_packets.h).
pub mod Options
pub mod Checksum
pub mod Packets
mod Tests
