-- ===== src/Interface/Tests.antt =====
-- The theorems on the interface at concrete inputs.
use pdrad.Prelude.{◌≡◌, refl, [], ◌∷◌, ◌++◌, some, arith}
use pdrad.Memory.{Bytes, done, fault, Fault}
use pdrad.Memory.Samples.{zeroed, zeros}
use pdrad.Interface.{
  ok, err, Interface, not_started, live, init, init_call, CallPath, no_calls, then_call,
}
use pdrad.Interface.Calls.{IsSane, calls-IsSane}
use pdrad.Interface.Query.{
  init_then_query, init-get_hardware_address, init-get_hardware_address_failed,
}

abbrev lan : Bytes
lan = b'e' ∷ b't' ∷ b'h' ∷ b'0' ∷ []

-- After `utils_Init` with descriptor 3.
abbrev started : Interface
started = record {
  handler = some 3;
  request = live (lan ++ zeros 36);
  opened = 3 ∷ [];
  others = [];
}

started_by_init : CallPath not_started started
unfolding init
started_by_init = then_call no_calls (init_call lan (some 3) zeroed (ok tt) refl)

calls-IsSane_example : IsSane started
calls-IsSane_example = calls-IsSane started_by_init

abbrev lost : Interface
lost = record { handler = some 3; request = live (lan ++ zeros 36); opened = []; others = [] }

init-get_hardware_address_example :
    init_then_query lan
      (some 3)
      zeroed
      (ok tt)
      (zeros 8)
      (ok (1 ∷ 0 ∷ 2 ∷ 0 ∷ 0 ∷ 0 ∷ 0 ∷ 1 ∷ zeros 16))
    ≡ done (0, 2 ∷ 0 ∷ 0 ∷ 0 ∷ 0 ∷ 1 ∷ 0 ∷ 0 ∷ [])
init-get_hardware_address_example =
    init-get_hardware_address lan (2 ∷ 0 ∷ 0 ∷ 0 ∷ 0 ∷ 1 ∷ []) (1 ∷ 0 ∷ []) (zeros 16) (0 ∷ 0 ∷ [])
      3 zeroed (zeros 6) (omega arith) refl refl refl refl refl

init-get_hardware_address_failed_example :
    init_then_query lan (some 3) zeroed (err 1) (zeros 8) (ok (zeros 24))
    ≡ fault Fault.dangling_pointer
init-get_hardware_address_failed_example =
    init-get_hardware_address_failed lan (zeros 8) (some 3) zeroed 1 (ok (zeros 24)) (omega arith)
      refl
