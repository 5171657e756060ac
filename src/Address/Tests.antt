-- ===== src/Address/Tests.antt =====
-- The theorem on addresses at a concrete input.
use pdrad.Prelude.{◌≡◌, [], ◌∷◌, arith}
use pdrad.Memory.{done}
use pdrad.Address.{all_dhcp_relay_agents_and_servers, htobe_inet6}
use pdrad.Address.Order.{htobe_inet6_lem}

htobe_inet6_lem_example :
    htobe_inet6 all_dhcp_relay_agents_and_servers
    ≡ done (0xff ∷ 0x02 ∷ 0 ∷ 0 ∷ 0 ∷ 0 ∷ 0 ∷ 0 ∷ 0 ∷ 0 ∷ 0 ∷ 0 ∷ 0 ∷ 1 ∷ 0 ∷ 2 ∷ [])
htobe_inet6_lem_example =
    htobe_inet6_lem 0xff020000 0 0 0x00010002 (omega arith) (omega arith) (omega arith)
      (omega arith)
