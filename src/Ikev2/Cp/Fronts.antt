-- ===== src/Ikev2/Cp/Fronts.antt =====
-- cp_config.go: which attributes the addresses come from.
use swu_go.Prelude.{
  ℕ, ◌≡◌, refl, ap, sym, ◌∙◌, Bool, true, false, ◌&&◌, ◌||◌, not, List, [], ◌∷◌, ◌++◌, append-nil,
  append_assoc, ◌==◌, if◌then◌else◌, shorter, shorter-false, shorter→le, take, arith,
}
use swu_go.Prelude.Bytes.{Bytes, byte_at}
use swu_go.Ikev2.Cp.{CpAttribute, Cp}
use swu_go.Ikev2.Cp.Config.{CpConfig, parse_attribute, parse_attributes_into, parse_cp_config}

abbrev pub is_one_of : ℕ → List ℕ → Bool
is_one_of ty [] = false
is_one_of ty (t ∷ ts) = (ty == t) || is_one_of ty ts

abbrev taken : ℕ → List ℕ → ℕ → Bytes → Bool
taken n types ty value = is_one_of ty types && not (shorter value n)

-- The first `n` bytes of the values of the attributes of these types, in their order, but for values that
-- are shorter.
abbrev pub fronts : ℕ → List ℕ → List CpAttribute → List Bytes
fronts n types [] = []
fronts n types (a ∷ attrs) =
    if is_one_of a.attr_type types && not (shorter a.value n)
    then take n a.value ∷ fronts n types attrs
    else fronts n types attrs

-- The byte behind the last IPv6 address that has one, or `prefix`.
abbrev pub last_prefix : ℕ → List CpAttribute → ℕ
last_prefix prefix [] = prefix
last_prefix prefix (a ∷ attrs) =
    last_prefix
      (if (a.attr_type == 8) && not (shorter a.value 17) then byte_at 16 a.value else prefix) attrs

one_more :
    (b : Bool) {xs : List Bytes} (front : List Bytes) (x : Bytes) (rest : List Bytes)
    → xs ≡ (if b then front ++ (x ∷ []) else front)
    → xs ++ rest ≡ front ++ (if b then x ∷ rest else rest)
one_more true front x rest e = ap (λ l. l ++ rest) e ∙ append_assoc front (x ∷ []) rest
one_more false front x rest e = ap (λ l. l ++ rest) e

-- A list of the configuration that grows by the fronts of some types.
module _ (field : CpConfig → List Bytes) (n : ℕ) (types : List ℕ) where
  abbrev GrowsBy : Type 0
  GrowsBy =
      (ty : ℕ) (value : Bytes) (cfg : CpConfig)
      → field (parse_attribute ty value cfg)
        ≡ (if taken n types ty value then field cfg ++ (take n value ∷ []) else field cfg)

  grown :
      GrowsBy
      → (attrs : List CpAttribute) (cfg : CpConfig)
      → field (parse_attributes_into attrs cfg) ≡ field cfg ++ fronts n types attrs
  grown h [] cfg = sym (append-nil (field cfg))
  grown h (a ∷ attrs) cfg =
      grown h attrs (parse_attribute a.attr_type a.value cfg)
      ∙ one_more (taken n types a.attr_type a.value) (field cfg) (take n a.value)
          (fronts n types attrs) (h a.attr_type a.value cfg)

GrowsBy-ipv4_addresses : GrowsBy (λ c. c.ipv4_addresses) 4 (1 ∷ [])
unfolding parse_attribute
GrowsBy-ipv4_addresses ty value cfg = ground arith

GrowsBy-ipv4_dns : GrowsBy (λ c. c.ipv4_dns) 4 (3 ∷ [])
unfolding parse_attribute
GrowsBy-ipv4_dns ty value cfg = ground arith

GrowsBy-ipv4_pcscf : GrowsBy (λ c. c.ipv4_pcscf) 4 (20 ∷ 16384 ∷ [])
unfolding parse_attribute
GrowsBy-ipv4_pcscf ty value cfg = ground arith

GrowsBy-ipv6_dns : GrowsBy (λ c. c.ipv6_dns) 16 (10 ∷ [])
unfolding parse_attribute
GrowsBy-ipv6_dns ty value cfg = ground arith

GrowsBy-ipv6_pcscf : GrowsBy (λ c. c.ipv6_pcscf) 16 (21 ∷ 16386 ∷ 16390 ∷ [])
unfolding parse_attribute
GrowsBy-ipv6_pcscf ty value cfg = ground arith

longer : (value : Bytes) → shorter value 17 ≡ false → shorter value 16 ≡ false
longer value h = shorter-false value 16 (omega (arith, shorter→le value 17 h))

GrowsBy-ipv6_addresses : GrowsBy (λ c. c.ipv6_addresses) 16 (8 ∷ [])
unfolding parse_attribute
GrowsBy-ipv6_addresses ty value cfg = ground (arith, longer value)

prefix_step :
    (ty : ℕ) (value : Bytes) (cfg : CpConfig)
    → (parse_attribute ty value cfg).ipv6_prefix
      ≡ (if (ty == 8) && not (shorter value 17) then byte_at 16 value else cfg.ipv6_prefix)
unfolding parse_attribute
prefix_step ty value cfg = ground arith

last_prefix_lem :
    (attrs : List CpAttribute) (cfg : CpConfig)
    → (parse_attributes_into attrs cfg).ipv6_prefix ≡ last_prefix cfg.ipv6_prefix attrs
last_prefix_lem [] cfg = refl
last_prefix_lem (a ∷ attrs) cfg =
    last_prefix_lem attrs (parse_attribute a.attr_type a.value cfg)
    ∙ ap (λ n. last_prefix n attrs) (prefix_step a.attr_type a.value cfg)

-- ParseCPConfig gives, for IPv4, the first 4 bytes of the values of INTERNAL_IP4_ADDRESS, of
-- INTERNAL_IP4_DNS, and of P_CSCF_IP4_ADDRESS and ASSIGNED_PCSCF_IP4_ADDRESS together, and for IPv6 the
-- first 16 bytes of the values of INTERNAL_IP6_ADDRESS, of INTERNAL_IP6_DNS, and of the three P-CSCF
-- types together: each in the order of the attributes, and without the values that are too short. The
-- prefix is the byte behind the last IPv6 address that has one, and else 0.
pub parse_cp_config-fronts :
    (p : Cp)
    → let c = parse_cp_config p in
      let attrs = p.attributes in
      (c.ipv4_addresses ≡ fronts 4 (1 ∷ []) attrs)
      × (c.ipv4_dns ≡ fronts 4 (3 ∷ []) attrs)
      × (c.ipv4_pcscf ≡ fronts 4 (20 ∷ 16384 ∷ []) attrs)
      × (c.ipv6_addresses ≡ fronts 16 (8 ∷ []) attrs)
      × (c.ipv6_dns ≡ fronts 16 (10 ∷ []) attrs)
      × (c.ipv6_pcscf ≡ fronts 16 (21 ∷ 16386 ∷ 16390 ∷ []) attrs)
      × (c.ipv6_prefix ≡ last_prefix 0 attrs)
unfolding parse_cp_config
parse_cp_config-fronts p = (
  grown (λ c. c.ipv4_addresses) 4 (1 ∷ []) GrowsBy-ipv4_addresses p.attributes _,
  grown (λ c. c.ipv4_dns) 4 (3 ∷ []) GrowsBy-ipv4_dns p.attributes _,
  grown (λ c. c.ipv4_pcscf) 4 (20 ∷ 16384 ∷ []) GrowsBy-ipv4_pcscf p.attributes _,
  grown (λ c. c.ipv6_addresses) 16 (8 ∷ []) GrowsBy-ipv6_addresses p.attributes _,
  grown (λ c. c.ipv6_dns) 16 (10 ∷ []) GrowsBy-ipv6_dns p.attributes _,
  grown (λ c. c.ipv6_pcscf) 16 (21 ∷ 16386 ∷ 16390 ∷ []) GrowsBy-ipv6_pcscf p.attributes _,
  last_prefix_lem p.attributes _,
)
