-- ===== src/Ikev2/Cp/Tests.antt =====
-- payload_cp.go: the theorems at concrete inputs.
use swu_go.Ikev2.Cp.Config.{parse_cp_config, parse_attribute, has_ipv4, has_ipv6}
use swu_go.Ikev2.Cp.Fronts.{fronts, last_prefix, parse_cp_config-fronts}
use swu_go.Prelude.{true, false, refl, ◌≡◌, [], ◌∷◌}
use swu_go.Ikev2.Cp.{Cp}

abbrev pub a_request : Cp
a_request = record {
  cfg_type = 1;
  attributes =
      record { attr_type = 1; value = [] }
      ∷ record { attr_type = 3; value = 8 ∷ 8 ∷ 4 ∷ 4 ∷ [] }
      ∷ [];
}

-- The addresses 10.0.0.9 and 8.8.4.4, and a value that is too short.
abbrev a_reply : Cp
a_reply = record {
  cfg_type = 2;
  attributes =
      record { attr_type = 1; value = 10 ∷ 0 ∷ 0 ∷ 9 ∷ [] }
      ∷ record { attr_type = 3; value = 8 ∷ 8 ∷ 4 ∷ 4 ∷ [] }
      ∷ record { attr_type = 10; value = 1 ∷ [] }
      ∷ [];
}

found_addresses :
    ((parse_cp_config a_reply).ipv4_addresses ≡ (10 ∷ 0 ∷ 0 ∷ 9 ∷ []) ∷ [])
    × ((parse_cp_config a_reply).ipv6_dns ≡ [])
    × (has_ipv4 (parse_cp_config a_reply) ≡ true)
    × (has_ipv6 (parse_cp_config a_reply) ≡ false)
unfolding parse_cp_config parse_attribute has_ipv4 has_ipv6
found_addresses = (refl, refl, refl, refl)

parse_cp_config-fronts_example :
    let c = parse_cp_config a_reply in
    let attrs = a_reply.attributes in
    (c.ipv4_addresses ≡ fronts 4 (1 ∷ []) attrs)
    × (c.ipv4_dns ≡ fronts 4 (3 ∷ []) attrs)
    × (c.ipv4_pcscf ≡ fronts 4 (20 ∷ 16384 ∷ []) attrs)
    × (c.ipv6_addresses ≡ fronts 16 (8 ∷ []) attrs)
    × (c.ipv6_dns ≡ fronts 16 (10 ∷ []) attrs)
    × (c.ipv6_pcscf ≡ fronts 16 (21 ∷ 16386 ∷ 16390 ∷ []) attrs)
    × (c.ipv6_prefix ≡ last_prefix 0 attrs)
parse_cp_config-fronts_example = parse_cp_config-fronts a_reply
