-- ===== src/Swu/Selector/Covers.antt =====
-- selector.go: what it is that a selector matches.
use swu_go.Prelude.{
  if_cases, and_true, eq_of_test, some_eq, length-take, length-drop, drop, slice_at, ℕ, ◌≤◌, ◌≡◌,
  refl, ap, sym, ◌∙◌, subst, ◌↔◌, ◌⊎◌, inl, inr, Bool, true, false, ◌&&◌, ◌||◌, not, ◌++◌, Option,
  none, some, ltb, leb, leb-true, ◌==◌, if◌then◌else◌, length, All, arith,
}
use swu_go.Prelude.Bytes.{Bytes, IsByte, u32_at}
use swu_go.Ikev2.Ts.{TrafficSelector, ts_ipv4_addr_range, ts_ipv6_addr_range}
use swu_go.Swu.Selector.{
  to4, to16, equal_bytes, v4_in_v6_prefix, bytes_le, has_ports, in_v4_range, in_v6_range,
  selector_matches,
}
use swu_go.Swu.Selector.Ranges.{be_value, bytes_le-be_value, u32-be_value}

-- An address of `n` bytes within the range, whose ends have `n` bytes too.
abbrev pub Within : TrafficSelector → Bytes → ℕ → Type 0
Within ts ip n =
    (length ts.start_addr ≡ n)
    × (length ts.end_addr ≡ n)
    × (be_value ts.start_addr ≤ be_value ip)
    × (be_value ip ≤ be_value ts.end_addr)

-- The address in the form of the selector's type, with the length of that form.
abbrev pub SelectedForm : ℕ → Bytes → Bytes → ℕ → Type 0
SelectedForm ts_type dst ip n =
    ((ts_type ≡ ts_ipv4_addr_range) × (to4 dst ≡ some ip) × (n ≡ 4))
    ⊎ ((ts_type ≡ ts_ipv6_addr_range) × (to16 dst ≡ some ip) × (n ≡ 16))

-- The selector covers the destination: by its protocol, by its ports if the protocol is TCP or UDP, and by
-- the range of its addresses, which are numbers.
pub record Covers (dst : Bytes) (proto dst_port : ℕ) (ts : TrafficSelector) : Type 0 where
  pub protocol : (ts.ip_protocol ≡ 0) ⊎ (ts.ip_protocol ≡ proto)
  pub port : has_ports ts.ip_protocol ≡ true → (ts.start_port ≤ dst_port) × (dst_port ≤ ts.end_port)
  pub address : (ip : Bytes) × (n : ℕ) × SelectedForm ts.ts_type dst ip n × Within ts ip n

-- The addresses are bytes.
pub record AddrBytes (ts : TrafficSelector) : Type 0 where
  pub start_bytes : All IsByte ts.start_addr
  pub end_bytes : All IsByte ts.end_addr

pub length-to4 : (dst ip : Bytes) → to4 dst ≡ some ip → length ip ≡ 4
unfolding to4
length-to4 dst ip h = elim (if_cases (length dst == 4) (some dst) _ (some ip) h) [
  | inl (four, e) ↦ ap length (sym (some_eq e)) ∙ eq_of_test (length dst) 4 four
  | inr (other, more) ↦ elim (if_cases _ (some (slice_at 12 4 dst)) none (some ip) more) [
    | inr (differs, e) ↦ cc
    | inl (mapped, e) ↦
        let (long, front) =
          and_true (length dst == 16) (equal_bytes (slice_at 0 12 dst) v4_in_v6_prefix) mapped in
        ap length (sym (some_eq e))
        ∙ omega (
          arith,
          length-take 4 (drop 12 dst),
          length-drop 12 dst,
          eq_of_test (length dst) 16 long,
        )
  ]
]

to16_form :
    (dst ip : Bytes) → All IsByte dst → to16 dst ≡ some ip → (length ip ≡ 16) × All IsByte ip
unfolding to16
to16_form dst ip hb h = elim (if_cases (length dst == 4) (some _) _ (some ip) h) [
  | inl (four, e) ↦
      let size : length (v4_in_v6_prefix ++ dst) ≡ 16 =
        omega (arith, eq_of_test (length dst) 4 four) in
      (
        ap length (sym (some_eq e)) ∙ size,
        subst (All IsByte) (some_eq e) (
          omega arith,
          (
            omega arith,
            (
              omega arith,
              (
                omega arith,
                (
                  omega arith,
                  (
                    omega arith,
                    (
                      omega arith,
                      (omega arith, (omega arith, (omega arith, (omega arith, (omega arith, hb))))),
                    ),
                  ),
                ),
              ),
            ),
          ),
        ),
      )
  | inr (other, more) ↦ elim (if_cases (length dst == 16) (some dst) none (some ip) more) [
    | inr (differs, e) ↦ cc
    | inl (long, e) ↦ (
      ap length (sym (some_eq e)) ∙ eq_of_test (length dst) 16 long,
      subst (All IsByte) (some_eq e) hb,
    )
  ]
]

lengths_of : (a b n : ℕ) → (not (a == n) || not (b == n)) ≡ false → (a ≡ n) × (b ≡ n)
lengths_of a b n h = ground arith

of_lengths : (a b n : ℕ) → a ≡ n → b ≡ n → (not (a == n) || not (b == n)) ≡ false
of_lengths a b n h k = ground arith

le_of_leb : (a b : ℕ) → leb a b ≡ true → a ≤ b
le_of_leb a b h = ground arith

v4_sound :
    (ts : TrafficSelector) (o : Option Bytes)
    → ((ip : Bytes) → o ≡ some ip → length ip ≡ 4)
    → in_v4_range ts o ≡ true
    → (ip : Bytes) × (o ≡ some ip) × Within ts ip 4
v4_sound ts none form h = cc
v4_sound ts (some ip) form h =
    elim (if_cases (not (length ts.start_addr == 4) || not (length ts.end_addr == 4)) false _ true
      h) [
        | inl (wrong, e) ↦ cc
        | inr (right, both) ↦
            let (hs, he) = lengths_of (length ts.start_addr) (length ts.end_addr) 4 right in
            let (low, high) =
              and_true (leb (u32_at 0 ts.start_addr) (u32_at 0 ip))
                (leb (u32_at 0 ip) (u32_at 0 ts.end_addr)) both in
            let a = le_of_leb (u32_at 0 ts.start_addr) (u32_at 0 ip) low in
            let b = le_of_leb (u32_at 0 ip) (u32_at 0 ts.end_addr) high in
            (
              ip,
              refl,
              (
                hs,
                he,
                rw (← u32-be_value ts.start_addr hs, ← u32-be_value ip (form ip refl)) a,
                rw (← u32-be_value ts.end_addr he, ← u32-be_value ip (form ip refl)) b,
              ),
            )
      ]

v4_complete :
    (ts : TrafficSelector) (ip : Bytes)
    → length ip ≡ 4
    → Within ts ip 4
    → in_v4_range ts (some ip) ≡ true
v4_complete ts ip size (hs, he, low, high) =
    rw
      (
        of_lengths (length ts.start_addr) (length ts.end_addr) 4 hs he,
        u32-be_value ts.start_addr hs,
        u32-be_value ip size,
        u32-be_value ts.end_addr he,
        leb-true (be_value ts.start_addr) (be_value ip) low,
        leb-true (be_value ip) (be_value ts.end_addr) high,
      )
      refl

v6_sound :
    (ts : TrafficSelector) (o : Option Bytes)
    → AddrBytes ts
    → ((ip : Bytes) → o ≡ some ip → (length ip ≡ 16) × All IsByte ip)
    → in_v6_range ts o ≡ true
    → (ip : Bytes) × (o ≡ some ip) × Within ts ip 16
v6_sound ts none addr form h = cc
v6_sound ts (some ip) addr form h =
    elim (if_cases (not (length ts.start_addr == 16) || not (length ts.end_addr == 16)) false _ true
      h) [
        | inl (wrong, e) ↦ cc
        | inr (right, both) ↦
            let (hs, he) = lengths_of (length ts.start_addr) (length ts.end_addr) 16 right in
            let (size, byte) = form ip refl in
            let (low, high) = and_true (bytes_le ts.start_addr ip) (bytes_le ip ts.end_addr) both in
            (
              ip,
              refl,
              (
                hs,
                he,
                le_of_leb (be_value ts.start_addr) (be_value ip) (
                    sym (bytes_le-be_value ts.start_addr ip (hs ∙ sym size) addr.start_bytes byte)
                    ∙ low),
                le_of_leb (be_value ip) (be_value ts.end_addr) (
                    sym (bytes_le-be_value ip ts.end_addr (size ∙ sym he) byte addr.end_bytes)
                    ∙ high),
              ),
            )
      ]

v6_complete :
    (ts : TrafficSelector) (ip : Bytes)
    → AddrBytes ts
    → (length ip ≡ 16) × All IsByte ip
    → Within ts ip 16
    → in_v6_range ts (some ip) ≡ true
v6_complete ts ip addr (size, byte) (hs, he, low, high) =
    rw
      (
        of_lengths (length ts.start_addr) (length ts.end_addr) 16 hs he,
        bytes_le-be_value ts.start_addr ip (hs ∙ sym size) addr.start_bytes byte,
        bytes_le-be_value ip ts.end_addr (size ∙ sym he) byte addr.end_bytes,
        leb-true (be_value ts.start_addr) (be_value ip) low,
        leb-true (be_value ip) (be_value ts.end_addr) high,
      )
      refl

protocol_iff :
    (p proto : ℕ) → ((not (p == 0) && not (p == proto)) ≡ false) ↔ ((p ≡ 0) ⊎ (p ≡ proto))
protocol_iff p proto = ground arith

port_sound :
    (b : Bool) (n s e : ℕ) → (b && (ltb n s || ltb e n)) ≡ false → b ≡ true → (s ≤ n) × (n ≤ e)
port_sound true n s e h k = ground arith
port_sound false n s e h k = cc

port_complete :
    (b : Bool) (n s e : ℕ) → (b ≡ true → (s ≤ n) × (n ≤ e)) → (b && (ltb n s || ltb e n)) ≡ false
port_complete true n s e h = in_range (h refl)
  where
    in_range : (s ≤ n) × (n ≤ e) → (ltb n s || ltb e n) ≡ false
    in_range (low, high) = ground arith
port_complete false n s e h = refl

module _ (dst : Bytes) (proto dst_port : ℕ) (dst_bytes : All IsByte dst) (ts : TrafficSelector)
    (addr : AddrBytes ts) where
  pub selector_matches-Covers :
      selector_matches dst proto dst_port ts ≡ true → Covers dst proto dst_port ts
  unfolding selector_matches
  selector_matches-Covers h =
      elim (if_cases (not (ts.ip_protocol == 0) && not (ts.ip_protocol == proto)) false _ true h) [
        | inl (other, e) ↦ cc
        | inr (same, h') ↦
            elim (if_cases
              (has_ports ts.ip_protocol && (ltb dst_port ts.start_port || ltb ts.end_port dst_port))
              false _ true h') [
                | inl (outside, e) ↦ cc
                | inr (inside, by_type) ↦ record {
                  protocol = (protocol_iff ts.ip_protocol proto).0 same;
                  port =
                      port_sound (has_ports ts.ip_protocol) dst_port ts.start_port ts.end_port
                        inside;
                  address =
                      elim (if_cases (ts.ts_type == ts_ipv4_addr_range) (in_v4_range ts (to4 dst)) _
                        true by_type) [
                          | inl (v4, found) ↦
                              let (ip, form, within) =
                                v4_sound ts (to4 dst) (length-to4 dst) found in
                              (
                                ip,
                                4,
                                inl (eq_of_test ts.ts_type ts_ipv4_addr_range v4, form, refl),
                                within,
                              )
                          | inr (not_v4, more) ↦
                              elim (if_cases (ts.ts_type == ts_ipv6_addr_range)
                                (in_v6_range ts (to16 dst)) false true more) [
                                  | inr (not_v6, e) ↦ cc
                                  | inl (v6, found) ↦
                                      let (ip, form, within) =
                                        v6_sound ts (to16 dst) addr
                                          (λ ip. λ e. to16_form dst ip dst_bytes e) found in
                                      (
                                        ip,
                                        16,
                                        inr (
                                          eq_of_test ts.ts_type ts_ipv6_addr_range v6,
                                          form,
                                          refl,
                                        ),
                                        within,
                                      )
                                ]
                        ];
                }
              ]
      ]

  pub Covers-selector_matches :
      Covers dst proto dst_port ts → selector_matches dst proto dst_port ts ≡ true
  unfolding selector_matches
  Covers-selector_matches c =
      rw
        (
          (protocol_iff ts.ip_protocol proto).1 c.protocol,
          port_complete (has_ports ts.ip_protocol) dst_port ts.start_port ts.end_port c.port,
        )
        (by_address c.address)
    where
      by_address :
          (ip : Bytes) × (n : ℕ) × SelectedForm ts.ts_type dst ip n × Within ts ip n
          → (if ts.ts_type == ts_ipv4_addr_range
              then in_v4_range ts (to4 dst)
              else if ts.ts_type == ts_ipv6_addr_range
              then in_v6_range ts (to16 dst)
              else false)
            ≡ true
      by_address (ip, n, inl (ty, form, size), within) =
          rw (ty, form)
            (v4_complete ts ip (length-to4 dst ip form) (subst (Within ts ip) size within))
      by_address (ip, n, inr (ty, form, size), within) =
          rw (ty, form)
            (v6_complete ts ip addr (to16_form dst ip dst_bytes form)
              (subst (Within ts ip) size within))
