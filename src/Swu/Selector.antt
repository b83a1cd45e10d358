-- ===== src/Swu/Selector.antt =====
-- pkg/swu/selector.go: the outgoing security association of a packet, by the traffic selectors.
pub mod Ranges
pub mod Covers
pub mod Choice
mod Tests
use swu_go.Prelude.{
  ℕ, zero, suc, ◌+◌, ◌*◌, ◌/◌, ◌%◌, Bool, true, false, ◌&&◌, ◌||◌, not, List, [], ◌∷◌, ◌++◌, Option,
  none, some, ltb, leb, ◌==◌, if◌then◌else◌, shorter, length, drop, slice_at, replicate,
}
use swu_go.Prelude.Bytes.{Bytes, byte_at, u16_at, u32_at}
use swu_go.Ikev2.Ts.{TrafficSelector, ts_ipv4_addr_range, ts_ipv6_addr_range}

-- `bytes.Equal`
abbrev pub equal_bytes : Bytes → Bytes → Bool
equal_bytes [] [] = true
equal_bytes [] (y ∷ ys) = false
equal_bytes (x ∷ xs) [] = false
equal_bytes (x ∷ xs) (y ∷ ys) = (x == y) && equal_bytes xs ys

-- The first 12 bytes of an IPv4 address in its long form.
abbrev pub v4_in_v6_prefix : Bytes
v4_in_v6_prefix = replicate 10 0 ++ (0xff ∷ 0xff ∷ [])

-- Package net's To4 and To16.
unfoldable pub to4 : Bytes → Option Bytes
to4 ip =
    if length ip == 4
    then some ip
    else if (length ip == 16) && equal_bytes (slice_at 0 12 ip) v4_in_v6_prefix
    then some (slice_at 12 4 ip)
    else none

unfoldable pub to16 : Bytes → Option Bytes
to16 ip =
    if length ip == 4
    then some (v4_in_v6_prefix ++ ip)
    else if length ip == 16
    then some ip
    else none

-- `bytes.Compare(xs, ys) <= 0`
abbrev pub bytes_le : Bytes → Bytes → Bool
bytes_le [] ys = true
bytes_le (x ∷ xs) [] = false
bytes_le (x ∷ xs) (y ∷ ys) = if x == y then bytes_le xs ys else ltb x y

-- `proto == 6 || proto == 17`, which have ports.
abbrev pub has_ports : ℕ → Bool
has_ports proto = (proto == 6) || (proto == 17)

abbrev pub in_v4_range : TrafficSelector → Option Bytes → Bool
in_v4_range ts none = false
in_v4_range ts (some ip4) =
    if not (length ts.start_addr == 4) || not (length ts.end_addr == 4)
    then false
    else leb (u32_at 0 ts.start_addr) (u32_at 0 ip4) && leb (u32_at 0 ip4) (u32_at 0 ts.end_addr)

abbrev pub in_v6_range : TrafficSelector → Option Bytes → Bool
in_v6_range ts none = false
in_v6_range ts (some ip6) =
    if not (length ts.start_addr == 16) || not (length ts.end_addr == 16)
    then false
    else bytes_le ts.start_addr ip6 && bytes_le ip6 ts.end_addr

-- One round of the loop of matchSelectors: whether it returns true.
unfoldable pub selector_matches : Bytes → ℕ → ℕ → TrafficSelector → Bool
selector_matches dst_ip proto dst_port ts =
    if not (ts.ip_protocol == 0) && not (ts.ip_protocol == proto)
    then false
    else if has_ports ts.ip_protocol && (ltb dst_port ts.start_port || ltb ts.end_port dst_port)
    then false
    else if ts.ts_type == ts_ipv4_addr_range
    then in_v4_range ts (to4 dst_ip)
    else if ts.ts_type == ts_ipv6_addr_range
    then in_v6_range ts (to16 dst_ip)
    else false

-- `none` is a nil selector.
abbrev pub match_selectors : Bytes → ℕ → ℕ → List (Option TrafficSelector) → Bool
match_selectors dst_ip proto dst_port [] = false
match_selectors dst_ip proto dst_port (none ∷ selectors) =
    match_selectors dst_ip proto dst_port selectors
match_selectors dst_ip proto dst_port (some ts ∷ selectors) =
    if selector_matches dst_ip proto dst_port ts
    then true
    else match_selectors dst_ip proto dst_port selectors

abbrev l4_port : ℕ → Bytes → ℕ
l4_port proto l4 = if has_ports proto && not (shorter l4 4) then u16_at 2 l4 else 0

-- extractDstTuple: `none` for ok = false, and else the address, the protocol and the port.
unfoldable pub extract_dst_tuple : Bytes → Option (Bytes × ℕ × ℕ)
extract_dst_tuple packet =
    let ver = byte_at 0 packet / 16 in
    let ihl = byte_at 0 packet % 16 * 4 in
    if shorter packet 1
    then none
    else if ver == 4
    then (if shorter packet 20
        then none
        else if ltb ihl 20 || shorter packet ihl
        then none
        else some
            (slice_at 16 4 packet, byte_at 9 packet, l4_port (byte_at 9 packet) (drop ihl packet)))
    else if ver == 6
    then (if shorter packet 40
        then none
        else some
            (slice_at 24 16 packet, byte_at 6 packet, l4_port (byte_at 6 packet) (drop 40 packet)))
    else none

-- A childOutPolicy; an association is known by a name of any type.
pub record ChildOutPolicy (Sa : Type 0) : Type 0 where
  pub sa_out : Option Sa
  pub tsr : List (Option TrafficSelector)

module _ {Sa : Type 0} where
  -- The loop of selectOutgoingSA, which ends at ChildSAOut.
  abbrev pub select_policy : Sa → Bytes → ℕ → ℕ → List (ChildOutPolicy Sa) → Sa
  select_policy child dst_ip proto dst_port [] = child
  select_policy child dst_ip proto dst_port (pol ∷ policies) = elim pol.sa_out [
    | none ↦ select_policy child dst_ip proto dst_port policies
    | some sa ↦
        if match_selectors dst_ip proto dst_port pol.tsr
        then sa
        else select_policy child dst_ip proto dst_port policies
  ]

  abbrev pub select_by_tuple : Sa → List (ChildOutPolicy Sa) → Option (Bytes × ℕ × ℕ) → Sa
  select_by_tuple child policies none = child
  select_by_tuple child policies (some (dst_ip, proto, dst_port)) =
      select_policy child dst_ip proto dst_port policies

  -- `none` is a nil ChildSAOut, which is returned as it is.
  unfoldable pub select_outgoing_sa : Option Sa → List (ChildOutPolicy Sa) → Bytes → Option Sa
  select_outgoing_sa none policies packet = none
  select_outgoing_sa (some child) [] packet = some child
  select_outgoing_sa (some child) (pol ∷ policies) packet =
      some (select_by_tuple child (pol ∷ policies) (extract_dst_tuple packet))
