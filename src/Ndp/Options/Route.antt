-- ===== src/Ndp/Options/Route.antt =====
-- The Route Information option.
use native.Mathlib.Decide.{dec_lt}
use pdrad.Prelude.{
  ℕ, ◌-◌, ◌*◌, ◌≤◌, ◌<◌, ◌≡◌, [], some, false, if◌then◌else◌, ◌==◌, ltb, arith, length, entries,
}
use pdrad.Memory.{Bytes, done, fault, Fault, Malloc}
use pdrad.Memory.Laws.{entries_lem, entries-append-drop, peek_overrun}
use pdrad.Ndp.Options.{create_option_route_information, route_prop_len}
use pdrad.Ndp.Options.Format.{route_information}

-- The length that RFC 4191 gives the option, in units of eight bytes: 1 for no prefix, 2 for up to
-- half an address and 3 for up to a whole one. The code takes 3 for a prefix of 64 bits already.
abbrev pub route_units : ℕ → ℕ
route_units p = if p == 0 then 1 else if ltb p 64 then 2 else 3

module _ (m : Malloc) where
  route_zero :
      (preference lifetime : ℕ) (prefix : Bytes) {b : Bytes}
      → preference < 256
      → m.alloc 8 ≡ some b
      → create_option_route_information m 0 preference lifetime prefix
        ≡ done (some (route_information 1 0 preference lifetime []))
  unfolding create_option_route_information route_prop_len
  route_zero preference lifetime prefix {b} hr e =
      rw (e, entries_lem 8 b (m.length-alloc 8 e)) (ground arith)

  route_short :
      (p preference lifetime : ℕ) (prefix : Bytes) {b : Bytes}
      → 0 < p
      → p < 64
      → preference < 256
      → length prefix ≡ 16
      → m.alloc 16 ≡ some b
      → create_option_route_information m p preference lifetime prefix
        ≡ done (some (route_information 2 p preference lifetime (entries 8 prefix)))
  unfolding create_option_route_information
  route_short p preference lifetime prefix {b} pos hp hr h e =
      let units : route_prop_len p ≡ 2 = unfold route_prop_len in ground arith in
      let some_prefix : (p == 0) ≡ false = ground arith in
      rw (units, some_prefix, e, entries_lem 16 b (m.length-alloc 16 e), entries_lem 16 prefix h)
        (ground arith)

  route_long :
      (p preference lifetime : ℕ) (prefix : Bytes) {b : Bytes}
      → 64 ≤ p
      → p < 128
      → preference < 256
      → length prefix ≡ 16
      → m.alloc 24 ≡ some b
      → create_option_route_information m p preference lifetime prefix
        ≡ done (some (route_information 3 p preference lifetime (entries 16 prefix)))
  unfolding create_option_route_information
  route_long p preference lifetime prefix {b} low hp hr h e =
      let units : route_prop_len p ≡ 3 = unfold route_prop_len in ground arith in
      let some_prefix : (p == 0) ≡ false = ground arith in
      rw (units, some_prefix, e, entries_lem 24 b (m.length-alloc 24 e), entries_lem 16 prefix h)
        (ground arith)

  -- For a prefix of at most 127 bits, a 16-byte address and an allocation that succeeds,
  -- `ndp_createOptionRouteInformation` returns the option of RFC 4191 with length 1, 2 or 3 for no
  -- bits, up to 63 bits and more, and with as many bytes of the address as that length holds; the
  -- bits behind the prefix are copied as they are.
  pub create_option_route_information_lem :
      (p preference lifetime : ℕ) (prefix : Bytes) {b : Bytes}
      → p < 128
      → preference < 256
      → length prefix ≡ 16
      → m.alloc (route_units p * 8) ≡ some b
      → create_option_route_information m p preference lifetime prefix
        ≡ done (
            some (
              route_information
                (route_units p)
                p
                preference
                lifetime
                (entries ((route_units p - 1) * 8) prefix)))
  create_option_route_information_lem p preference lifetime prefix {b} hp hr h e =
      elim (dec_lt 0 p) [
        | no nothing ↦
            let zero_bits : p ≡ 0 = omega arith in
            let e' : m.alloc 8 ≡ some b = rw zero_bits at e in
            rw zero_bits (route_zero preference lifetime prefix hr e')
        | yes pos ↦ elim (dec_lt p 64) [
          | yes short ↦
              let units : route_units p ≡ 2 = ground arith in
              rw units (route_short p preference lifetime prefix pos short hr h (rw units at e))
          | no long ↦
              let units : route_units p ≡ 3 = ground arith in
              rw units
                (route_long p preference lifetime prefix (omega arith) hp hr h (rw units at e))
        ]
      ]

  -- For every prefix length from 128 on, the valid 128 included, and every 16-byte address,
  -- `ndp_createOptionRouteInformation` reads past the end of the address if its allocation
  -- succeeds.
  pub create_option_route_information_overrun :
      (p preference lifetime : ℕ) (prefix : Bytes) {b : Bytes}
      → 128 ≤ p
      → length prefix ≡ 16
      → m.alloc (route_prop_len p * 8) ≡ some b
      → create_option_route_information m p preference lifetime prefix ≡ fault Fault.out_of_bounds
  unfolding create_option_route_information
  create_option_route_information_overrun p preference lifetime prefix {b} far h e =
      let some_prefix : (p == 0) ≡ false = ground arith in
      let units : 4 ≤ route_prop_len p = unfold route_prop_len in ground arith in
      rw (
        e,
        entries-append-drop 8 b (omega (arith, m.length-alloc _ e)),
        some_prefix,
        peek_overrun prefix ((route_prop_len p - 1) * 8) (omega arith),
      )
