-- ===== src/Dhcp/Options/Layout.antt =====
-- What the option constructors leave in memory.
use pdrad.Prelude.{
  ℕ, ◌+◌, ◌%◌, ◌^◌, ◌<◌, ◌≡◌, [], ◌++◌, arith, length, entries, drop, length-drop, ◌==◌, false,
  none, some,
}
use pdrad.Memory.{Bytes, done, fault, Fault, Malloc, le32, be16, be32}
use pdrad.Memory.Laws.{
  entries_lem, entries-append-drop, peek-append, overwrite_all, overwrite_overrun,
}
use pdrad.Dhcp.Options.Format.{option, host_option}
use pdrad.Dhcp.Options.{
  create_custom_opt_payload, create_option_elapsed_time, create_option_ia_pd,
  create_option_iaprefix, create_option_client_identifier_en, create_option_rapid_commit,
}

-- A block of `n + 4` bytes has a header of four bytes and a rest of `n`.
header_of :
    (n : ℕ) (b : Bytes) → length b ≡ n + 4 → (b ≡ entries 4 b ++ drop 4 b) × (length (drop 4 b) ≡ n)
header_of n b h = (entries-append-drop 4 b (omega arith), omega (arith, length-drop 4 b))

module _ (m : Malloc) where
  pub create_option_elapsed_time_lem :
      (time : ℕ) {b : Bytes}
      → m.alloc 6 ≡ some b
      → create_option_elapsed_time m time ≡ done (some (host_option (option 8 (be16 time))))
  unfolding create_option_elapsed_time
  create_option_elapsed_time_lem time {b} e =
      rw (e, entries_lem 6 b (m.length-alloc 6 e)) (ground arith)

  pub create_option_ia_pd_null :
      (id n : ℕ) {b : Bytes}
      → m.alloc 16 ≡ some b
      → create_option_ia_pd m id none n
        ≡ done (some (host_option (option 25 (be32 id ++ le32 0 ++ le32 0))))
  unfolding create_option_ia_pd
  create_option_ia_pd_null id n {b} e =
      rw (e, entries_lem 16 b (m.length-alloc 16 e)) (ground arith)

  -- If the 16-byte allocation succeeds, `dh_createOption_IA_PD` with prefix options of one byte or
  -- more writes past the end of its block.
  pub create_option_ia_pd_overrun :
      (id n : ℕ) (options extra : Bytes) {b : Bytes}
      → m.alloc 16 ≡ some b
      → length options ≡ n
      → 0 < n
      → create_option_ia_pd m id (some (options ++ extra)) n ≡ fault Fault.out_of_bounds
  unfolding create_option_ia_pd
  create_option_ia_pd_overrun id n options extra {b} e h pos = rw (
    e,
    entries_lem 16 b (m.length-alloc 16 e),
    peek-append options extra n h,
    overwrite_overrun [] options (omega arith),
  )

  -- If the 28-byte allocation succeeds, `dh_createOption_IAPrefix` writes past the end of its
  -- block for all lifetimes, prefix lengths and 16-byte prefixes.
  pub create_option_iaprefix_overrun :
      (preferred valid prefix_length : ℕ) (prefix : Bytes) {b : Bytes}
      → m.alloc 28 ≡ some b
      → length prefix ≡ 16
      → create_option_iaprefix m preferred valid prefix_length prefix ≡ fault Fault.out_of_bounds
  unfolding create_option_iaprefix
  create_option_iaprefix_overrun preferred valid prefix_length prefix {b} e h =
      rw (e, entries_lem 28 b (m.length-alloc 28 e), entries_lem 16 prefix h)

  -- For a 16-bit code, data of `n` bytes in front of anything, and an allocation of `n + 4` bytes
  -- that succeeds and does not wrap, `dh_createCustomOptPayload` returns the option with that
  -- code, the length of the data, and the data.
  pub create_custom_opt_payload_lem :
      (code n : ℕ) (bytes extra : Bytes) {b : Bytes}
      → code < 65536
      → n + 4 < 2 ^ 64
      → length bytes ≡ n
      → m.alloc (n + 4) ≡ some b
      → create_custom_opt_payload m code (some (bytes ++ extra)) n
        ≡ done (some (host_option (option code bytes)))
  unfolding create_custom_opt_payload
  create_custom_opt_payload_lem code n bytes extra {b} hc hn hl e =
      let (split, size) = header_of n b (m.length-alloc (n + 4) e) in
      let fits : (n + 4) % 2 ^ 64 ≡ n + 4 = omega arith in
      rw (
        fits,
        e,
        split,
        peek-append bytes extra n hl,
        overwrite_all (drop 4 b) bytes (omega arith),
        ← hl,
      )

  pub create_option_rapid_commit_lem :
      {b : Bytes}
      → m.alloc 4 ≡ some b
      → create_option_rapid_commit m ≡ done (some (host_option (option 14 [])))
  unfolding create_option_rapid_commit
  create_option_rapid_commit_lem {b} e = rw (e, entries_lem 4 b (m.length-alloc 4 e))

  -- For an identifier of one byte at least and an allocation that succeeds and does not wrap,
  -- `dh_createOption_ClientIdentifier_En` returns the client identifier option with a DUID-EN:
  -- type 2 and the enterprise number in network order, then the identifier.
  pub create_option_client_identifier_en_lem :
      (number n : ℕ) (id extra : Bytes) {b : Bytes}
      → 0 < n
      → n + 10 < 2 ^ 64
      → length id ≡ n
      → m.alloc (10 + n) ≡ some b
      → create_option_client_identifier_en m number (id ++ extra) n
        ≡ done (some (host_option (option 1 (be16 2 ++ be32 number ++ id))))
  unfolding create_option_client_identifier_en
  create_option_client_identifier_en_lem number n id extra {b} pos hn hl e =
      let split : b ≡ entries 10 b ++ drop 10 b =
        entries-append-drop 10 b (omega (arith, m.length-alloc (10 + n) e)) in
      let size : length (drop 10 b) ≡ length id =
        omega (arith, length-drop 10 b, m.length-alloc (10 + n) e) in
      let fits : (10 + n) % 2 ^ 64 ≡ 10 + n = omega arith in
      let fits6 : (6 + n) % 2 ^ 64 ≡ 6 + n = omega arith in
      let more : (n == 0) ≡ false = ground arith in
      rw (more, fits, fits6, e, split, peek-append id extra n hl, overwrite_all (drop 10 b) id size)
        (ground arith)
