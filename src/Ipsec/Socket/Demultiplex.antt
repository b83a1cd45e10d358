-- ===== src/Ipsec/Socket/Demultiplex.antt =====
-- socket.go: what is told apart by the first bytes.
use swu_go.Prelude.{
  ℕ, ◌≤◌, ◌==◌, ◌||◌, not, eq_of_test, ◌≡◌, ◌≢◌, refl, ap, ◌∙◌, Bool, true, false, Bool-cases, inl,
  inr, Option, none, [], ◌∷◌, ==_false, if◌then◌else◌, if_cases, shorter, shorter-false, shorter→le,
  length, arith,
}
use swu_go.Prelude.Bytes.{Bytes, byte_at, u32_at}
use swu_go.Ipsec.Socket.{
  looks_like_ike, parse_ike_payload, to_ike, to_esp, esp_data, deliver_esp, demultiplex, Remote,
  send_ike,
}

looks_like_ike_long : (d : Bytes) → looks_like_ike d ≡ true → 28 ≤ length d
unfolding looks_like_ike
looks_like_ike_long d h = elim (if_cases (shorter d 28) false _ true h) [
  | inl (_, e) ↦ cc
  | inr (long, _) ↦ shorter→le d 28 long
]

plain-to_ike : (d : Bytes) → looks_like_ike d ≡ true → u32_at 0 d ≢ 0 → demultiplex d ≡ to_ike d
unfolding demultiplex parse_ike_payload
plain-to_ike d h nz =
    let long = looks_like_ike_long d h in
    rw
      (
        ==_false (length d) 1 (λ e. absurd (omega arith)),
        shorter-false d 4 (omega arith),
        ==_false (u32_at 0 d) 0 nz,
        shorter-false d 28 long,
        h,
      )
      refl

marked-to_ike : (d : Bytes) → looks_like_ike d ≡ true → demultiplex (0 ∷ 0 ∷ 0 ∷ 0 ∷ d) ≡ to_ike d
unfolding demultiplex parse_ike_payload
marked-to_ike d h =
    let long = looks_like_ike_long d h in
    rw
      (
        shorter-false d 28 long,
        h,
        ==_false (length (0 ∷ 0 ∷ 0 ∷ 0 ∷ d)) 1 (λ e. absurd (omega arith)),
      )
      refl

deliver_esp_some : (d : Bytes) → 4 ≤ length d → deliver_esp d ≡ to_esp d
deliver_esp_some [] h = absurd (omega arith)
deliver_esp_some (b ∷ bs) h = refl

esp_data_same : (d : Bytes) → 4 ≤ length d → u32_at 0 d ≢ 0 → esp_data d ≡ d
esp_data_same d long nz = rw (shorter-false d 4 long, ==_false (u32_at 0 d) 0 nz) refl

not_ike : (b : Bool) (d : Bytes) → ◌≡◌ {A = Option Bytes} (if b then none else none) none
not_ike true d = refl
not_ike false d = refl

esp-to_esp :
    (d : Bytes)
    → 4 ≤ length d
    → u32_at 0 d ≢ 0
    → looks_like_ike d ≡ false
    → demultiplex d ≡ to_esp d
unfolding demultiplex parse_ike_payload
esp-to_esp d long nz h =
    rw
      (
        ==_false (length d) 1 (λ e. absurd (omega arith)),
        shorter-false d 4 long,
        ==_false (u32_at 0 d) 0 nz,
        h,
        not_ike (shorter d 28) d,
      )
      (ap deliver_esp (esp_data_same d long nz) ∙ deliver_esp_some d long)

-- What SendIKE sends, on any port, readLoop gives to IKEChan as it was, if it looks like IKE (28 bytes,
-- version 2.0, one of the four exchanges) and the first half of its SPI is not 0.
pub demultiplex-send_ike :
    (r : Remote) (d : Bytes)
    → looks_like_ike d ≡ true
    → u32_at 0 d ≢ 0
    → demultiplex (send_ike r d).1 ≡ to_ike d
unfolding send_ike
demultiplex-send_ike r d h nz = by_port _ (plain-to_ike d h nz) (marked-to_ike d h)
  where
    by_port :
        (b : Bool)
        → demultiplex d ≡ to_ike d
        → demultiplex (0 ∷ 0 ∷ 0 ∷ 0 ∷ d) ≡ to_ike d
        → demultiplex (if b then 0 ∷ 0 ∷ 0 ∷ 0 ∷ d else d) ≡ to_ike d
    by_port true p q = q
    by_port false p q = p

-- What IKE version 2 looks like, by the bytes: a whole header, whose version is 2.0 and whose exchange is
-- one of the four from IKE_SA_INIT to INFORMATIONAL.
abbrev pub HasIkeForm : Bytes → Type 0
HasIkeForm d = (28 ≤ length d) × (byte_at 17 d ≡ 32) × (34 ≤ byte_at 18 d) × (byte_at 18 d ≤ 37)

exchange_of : (x : ℕ) → 34 ≤ x → x ≤ 37 → ((x == 34) || (x == 35) || (x == 36) || (x == 37)) ≡ true
exchange_of x low high = ground arith

looks_like_ike-true : (d : Bytes) → HasIkeForm d → looks_like_ike d ≡ true
unfolding looks_like_ike
looks_like_ike-true d (long, version, low, high) =
    rw (shorter-false d 28 long, version) (exchange_of (byte_at 18 d) low high)

exchange_range :
    (x : ℕ) → ((x == 34) || (x == 35) || (x == 36) || (x == 37)) ≡ true → (34 ≤ x) × (x ≤ 37)
exchange_range x h = ground arith

both_tests : (b x : Bool) → (if not b then false else x) ≡ true → (b ≡ true) × (x ≡ true)
both_tests true x h = (refl, h)
both_tests false x h = cc

looks_like_ike-HasIkeForm : (d : Bytes) → looks_like_ike d ≡ true → HasIkeForm d
unfolding looks_like_ike
looks_like_ike-HasIkeForm d h = elim (if_cases (shorter d 28) false _ true h) [
  | inl (_, e) ↦ cc
  | inr (long, rest) ↦
      let (version, exchange) = both_tests (byte_at 17 d == 0x20) _ rest in
      let (low, high) = exchange_range (byte_at 18 d) exchange in
      (shorter→le d 28 long, eq_of_test _ _ version, low, high)
]

-- A datagram of 4 bytes at least that does not begin with four zeros. With 28 bytes at least, 32 as its 18th
-- byte and 34, 35, 36 or 37 as its 19th it goes to IKEChan as it is, and behind a marker of four zeros it does
-- too; without the marker any other goes to ESPChan as it is. No other byte counts, so an ESP packet
-- that has these two bytes is taken for IKE, on any port.
pub demultiplex-looks_like_ike :
    (d : Bytes)
    → 4 ≤ length d
    → u32_at 0 d ≢ 0
    → (HasIkeForm d → (demultiplex d ≡ to_ike d) × (demultiplex (0 ∷ 0 ∷ 0 ∷ 0 ∷ d) ≡ to_ike d))
      × ((HasIkeForm d → ⊥) → demultiplex d ≡ to_esp d)
demultiplex-looks_like_ike d long nz = (
  λ ike.
      (plain-to_ike d (looks_like_ike-true d ike) nz, marked-to_ike d (looks_like_ike-true d ike)),
  λ other. esp-to_esp d long nz (elim (Bool-cases (looks_like_ike d)) [
    | inl e ↦ absurd (other (looks_like_ike-HasIkeForm d e))
    | inr e ↦ e
  ]),
)
