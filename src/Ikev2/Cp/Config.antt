-- ===== src/Ikev2/Cp/Config.antt =====
-- pkg/ikev2/cp_config.go: the addresses in a configuration payload.
use swu_go.Prelude.{
  ℕ, Bool, not, List, [], ◌∷◌, ◌++◌, ltb, ◌==◌, if◌then◌else◌, shorter, length, take,
}
use swu_go.Prelude.Bytes.{Bytes, byte_at}
use swu_go.Ikev2.Cp.{CpAttribute, Cp}

abbrev pub internal_ip4_address : ℕ
internal_ip4_address = 1

abbrev pub internal_ip4_dns : ℕ
internal_ip4_dns = 3

abbrev pub internal_ip6_address : ℕ
internal_ip6_address = 8

abbrev pub internal_ip6_dns : ℕ
internal_ip6_dns = 10

abbrev pub p_cscf_ip4_address : ℕ
p_cscf_ip4_address = 20

abbrev pub p_cscf_ip6_address : ℕ
p_cscf_ip6_address = 21

abbrev pub assigned_pcscf_ip4_address : ℕ
assigned_pcscf_ip4_address = 16384

abbrev pub assigned_pcscf_ipv6_address : ℕ
assigned_pcscf_ipv6_address = 16386

abbrev pub assigned_pcscf_ip6_address : ℕ
assigned_pcscf_ip6_address = 16390

pub record CpConfig : Type 0 where
  pub ipv4_addresses : List Bytes
  pub ipv4_dns : List Bytes
  pub ipv4_pcscf : List Bytes
  pub ipv6_addresses : List Bytes
  pub ipv6_prefix : ℕ
  pub ipv6_dns : List Bytes
  pub ipv6_pcscf : List Bytes

-- `if len(attr.Value) >= n { xs = append(xs, attr.Value[:n]) }`
abbrev pub append_front : ℕ → Bytes → List Bytes → List Bytes
append_front n value xs = if shorter value n then xs else xs ++ (take n value ∷ [])

-- The switch on the type of one attribute.
unfoldable pub parse_attribute : ℕ → Bytes → CpConfig → CpConfig
parse_attribute ty value cfg =
    if ty == internal_ip4_address
    then record cfg { ipv4_addresses = append_front 4 value cfg.ipv4_addresses }
    else if ty == internal_ip4_dns
    then record cfg { ipv4_dns = append_front 4 value cfg.ipv4_dns }
    else if ty == p_cscf_ip4_address
    then record cfg { ipv4_pcscf = append_front 4 value cfg.ipv4_pcscf }
    else if ty == assigned_pcscf_ip4_address
    then record cfg { ipv4_pcscf = append_front 4 value cfg.ipv4_pcscf }
    else if ty == internal_ip6_address
    then (if not (shorter value 17)
        then record cfg {
          ipv6_addresses = cfg.ipv6_addresses ++ (take 16 value ∷ []);
          ipv6_prefix = byte_at 16 value;
        }
        else if not (shorter value 16)
        then record cfg { ipv6_addresses = cfg.ipv6_addresses ++ (take 16 value ∷ []) }
        else cfg)
    else if ty == internal_ip6_dns
    then record cfg { ipv6_dns = append_front 16 value cfg.ipv6_dns }
    else if ty == p_cscf_ip6_address
    then record cfg { ipv6_pcscf = append_front 16 value cfg.ipv6_pcscf }
    else if ty == assigned_pcscf_ipv6_address
    then record cfg { ipv6_pcscf = append_front 16 value cfg.ipv6_pcscf }
    else if ty == assigned_pcscf_ip6_address
    then record cfg { ipv6_pcscf = append_front 16 value cfg.ipv6_pcscf }
    else cfg

abbrev pub parse_attributes_into : List CpAttribute → CpConfig → CpConfig
parse_attributes_into [] cfg = cfg
parse_attributes_into (a ∷ attrs) cfg =
    parse_attributes_into attrs (parse_attribute a.attr_type a.value cfg)

unfoldable pub parse_cp_config : Cp → CpConfig
parse_cp_config p = parse_attributes_into p.attributes (record {
  ipv4_addresses = [];
  ipv4_dns = [];
  ipv4_pcscf = [];
  ipv6_addresses = [];
  ipv6_prefix = 0;
  ipv6_dns = [];
  ipv6_pcscf = [];
})

unfoldable pub has_ipv4 : CpConfig → Bool
has_ipv4 c = ltb 0 (length c.ipv4_addresses)

unfoldable pub has_ipv6 : CpConfig → Bool
has_ipv6 c = ltb 0 (length c.ipv6_addresses)
