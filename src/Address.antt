-- ===== src/Address.antt =====
-- The address macros of Inc/global.h, for a 64-bit machine.
pub mod Order
mod Tests
use pdrad.Prelude.{ℕ, ◌+◌, ◌*◌, ◌/◌, ◌%◌, ◌^◌, ◌++◌}
use pdrad.Memory.{Bytes, Run, done, ◌>>=◌, le32, load32, htobe32, write}

-- An address that is filled by words.
abbrev pub address_words : ℕ → ℕ → ℕ → ℕ → Bytes
address_words a b c d = le32 a ++ le32 b ++ le32 c ++ le32 d

abbrev pub all_nodes_multicast : Bytes
all_nodes_multicast = address_words 0xff020000 0 0 1

abbrev pub all_routers_multicast : Bytes
all_routers_multicast = address_words 0xff020000 0 0 2

abbrev pub all_dhcp_relay_agents_and_servers : Bytes
all_dhcp_relay_agents_and_servers = address_words 0xff020000 0 0 0x00010002

-- `htobe64` of the C library, and a 64-bit integer in memory.
abbrev pub htobe64 : ℕ → ℕ
htobe64 v = htobe32 (v % 2 ^ 32) * 2 ^ 32 + htobe32 (v / 2 ^ 32 % 2 ^ 32)

abbrev pub le64 : ℕ → Bytes
le64 v = le32 (v % 2 ^ 32) ++ le32 (v / 2 ^ 32 % 2 ^ 32)

-- `(uint64_t) high << 32 | low`
abbrev pub join_words : ℕ → ℕ → ℕ
join_words high low = high * 2 ^ 32 % 2 ^ 64 + low

unfoldable pub htobe_inet6 : Bytes → Run Bytes
htobe_inet6 addr = do
  word_0 ← load32 addr 0
  word_1 ← load32 addr 4
  addr ← write addr 0 (le64 (htobe64 (join_words word_0 word_1)))
  word_2 ← load32 addr 8
  word_3 ← load32 addr 12
  write addr 8 (le64 (htobe64 (join_words word_2 word_3)))
