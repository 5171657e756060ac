-- ===== src/Daemon/Advertise/Only.antt =====
-- `sendRouterAdv` sends that advertisement or, where an allocation fails, nothing.
use pdrad.Prelude.{
  ℕ, ◌+◌, ◌%◌, ◌≡◌, ◌<◌, ◌^◌, ◌⊎◌, inl, inr, refl, List, ◌++◌, Option, none, some, arith, length,
  entries, All,
}
use pdrad.Memory.{Bytes, Run, Malloc}
use pdrad.Memory.Ensures.{Ensures, returns, faults, Ensures->>=_of}
use pdrad.Memory.Laws.{peek_all}
use pdrad.Ndp.Options.{
  create_option_prefix_information, create_option_route_information, create_option_mtu,
  create_option_link_layer_address_core, create_option_source_link_layer_address, route_prop_len,
}
use pdrad.Ndp.Options.Format.{
  link_layer_address, prefix_information, mtu_option, route_information, IsNdpOption,
}
use pdrad.Ndp.Options.Layout.{
  create_option_link_layer_address_core_lem, create_option_prefix_information_lem,
  create_option_mtu_lem,
}
use pdrad.Ndp.Options.Route.{create_option_route_information_lem}
use pdrad.Ndp.Packets.{create_ra_packet}
use pdrad.Ndp.Packets.Wire.{
  concat, router_advert, pointers, create_ra_packet_lem, create_ra_packet_null,
}
use pdrad.Daemon.Advertise.{send_router_adv}
use pdrad.Daemon.Advertise.Wire.{
  advertised, advertisement, advertised-IsNdpOption, length-advertised,
}

-- What a run returns, if it returns, is `a`.
abbrev pub Only {ℓ} : {A : Type ℓ} → A → Run A → Type ℓ
Only a = Ensures (λ x. x ≡ a)

alloc_cases : (m : Malloc) (n : ℕ) → (m.alloc n ≡ none) ⊎ ((b : Bytes) × (m.alloc n ≡ some b))
alloc_cases m n = split (m.alloc n) refl
  where
    split :
        (o : Option Bytes)
        → m.alloc n ≡ o
        → (m.alloc n ≡ none) ⊎ ((b : Bytes) × (m.alloc n ≡ some b))
    split none e = inl e
    split (some b) e = inr (b, e)

prefix-Only :
    (m : Malloc) (l v p : ℕ) (prefix : Bytes)
    → l < 256
    → length prefix ≡ 16
    → Only
        (some (prefix_information l 0xC0 v p prefix))
        (create_option_prefix_information m l 0xC0 v p prefix)
unfolding create_option_prefix_information
prefix-Only m l v p prefix hl hp = elim (alloc_cases m 32) [
  | inl e ↦ rw e faults
  | inr (b, e) ↦
      rw (create_option_prefix_information_lem m l 0xC0 v p prefix hl hp e) (returns refl)
]

route-Only :
    (m : Malloc) (v : ℕ) (prefix : Bytes)
    → length prefix ≡ 16
    → Only
        (some (route_information 2 56 0 v (entries 8 prefix)))
        (create_option_route_information m 56 0 v prefix)
unfolding create_option_route_information route_prop_len
route-Only m v prefix hp = elim (alloc_cases m 16) [
  | inl e ↦ rw e faults
  | inr (b, e) ↦
      rw (create_option_route_information_lem m 56 0 v prefix (omega arith) (omega arith) hp e)
        (returns refl)
]

mtu-Only : (m : Malloc) (n : ℕ) → Only (some (mtu_option n)) (create_option_mtu m n)
unfolding create_option_mtu
mtu-Only m n = elim (alloc_cases m 8) [
  | inl e ↦ rw e faults
  | inr (b, e) ↦ rw (create_option_mtu_lem m n e) (returns refl)
]

link-Only :
    (m : Malloc) (mac extra : Bytes)
    → length mac ≡ 6
    → Only
        (some (link_layer_address 1 mac))
        (create_option_source_link_layer_address m (mac ++ extra))
unfolding create_option_source_link_layer_address create_option_link_layer_address_core
link-Only m mac extra h = elim (alloc_cases m 8) [
  | inl e ↦ rw e faults
  | inr (b, e) ↦
      rw (create_option_link_layer_address_core_lem m 1 mac extra (inl refl) h e) (returns refl)
]

packet-Only :
    (m : Malloc) (source dest : Bytes) (hop_limit lifetime : ℕ) (options : List Bytes)
    → length source ≡ 16
    → length dest ≡ 16
    → hop_limit < 256
    → All IsNdpOption options
    → 16 + length (concat options) < 2 ^ 64
    → Only
        (16 + length (concat options), some (router_advert hop_limit lifetime 0 0 options))
        (create_ra_packet m source dest hop_limit lifetime 0 0 (length options) (pointers options))
packet-Only m source dest hop_limit lifetime options hs hd hh v fits =
    elim (alloc_cases m (16 + length (concat options))) [
      | inl e ↦
          rw (create_ra_packet_null m source dest hop_limit lifetime 0 0 options v fits e) faults
      | inr (b, e) ↦
          rw (create_ra_packet_lem m source dest hop_limit lifetime 0 0 options hs hd hh v fits e)
            (returns refl)
    ]

pub send_router_adv-Only :
    (ms : ℕ → Malloc) (mac extra link_local dst prefix : Bytes) (prefix_length valid preferred : ℕ)
    → length mac ≡ 6
    → length link_local ≡ 16
    → length dst ≡ 16
    → length prefix ≡ 16
    → Only
        (record {
          destination = dst;
          hop_limit = 255;
          payload = advertisement mac prefix prefix_length valid preferred;
        })
        (send_router_adv ms (mac ++ extra) link_local dst prefix prefix_length valid preferred)
unfolding send_router_adv
send_router_adv-Only ms mac extra link_local dst prefix prefix_length valid preferred hm hl hd hp =
    Ensures->>=_of
      (prefix-Only (ms 0) (prefix_length % 256) valid preferred prefix (omega arith) hp)
      λ o0 e0. Ensures->>=_of (route-Only (ms 1) valid prefix hp) λ o1 e1.
        Ensures->>=_of (mtu-Only (ms 2) 1500) λ o2 e2.
          Ensures->>=_of (link-Only (ms 3) mac extra hm) λ o3 e3.
            rw (e0, e1, e2, e3)
              (Ensures->>=_of
                (packet-Only (ms 4) link_local dst 64 1800 options hl hd (omega arith) valid_options
                  (omega (arith, total)))
                λ r e.
                  rw
                    (
                      e,
                      peek_all (router_advert 64 1800 0 0 options) (16 + length (concat options))
                          (omega arith),
                    )
                    (returns refl))
  where
    options : List Bytes
    options = advertised mac prefix prefix_length valid preferred

    total : 16 + length (concat options) ≡ 80
    total = length-advertised mac prefix prefix_length valid preferred hm hp

    valid_options : All IsNdpOption options
    valid_options = advertised-IsNdpOption mac prefix prefix_length valid preferred hm hp
