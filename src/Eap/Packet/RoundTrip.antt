-- ===== src/Eap/Packet/RoundTrip.antt =====
-- packet.go: Parse reads back what Encode wrote.
use swu_go.Prelude.{
  ℕ, take-length-append, ◌+◌, ◌-◌, ◌%◌, ◌^◌, ◌≤◌, ◌<◌, ◌≡◌, refl, Bool-cases, inl, inr, [], ◌∷◌,
  ◌++◌, ok, ltb, ltb-false, lt→ltb, if◌then◌else◌, length, length-append, take, arith,
}
use swu_go.Prelude.Bytes.{Bytes, be16, u16-be16}
use swu_go.Eap.Packet.{
  EapPacket, is_exchange, is_aka, parse_aka, parse_fields, parse, encode_body, encode,
}

-- The fields that a packet of its code and type has: the others are zero.
abbrev pub carried : EapPacket → EapPacket
carried p =
    if is_exchange p.code
    then (if is_aka p.eap_type then p else (record p { subtype = 0 }))
    else (record p { eap_type = 0; subtype = 0; body = [] })

framed : EapPacket → Bytes → Bytes → Bytes
framed p content rest = p.code ∷ p.identifier ∷ (be16 (4 + length content) ++ (content ++ rest))

abbrev bare : EapPacket → EapPacket
bare p = record p { eap_type = 0; subtype = 0; body = [] }

parse-framed :
    (p : EapPacket) (content rest : Bytes)
    → 4 + length content < 2 ^ 16
    → parse (framed p content rest)
      ≡ ok (parse_fields (framed p content rest) (4 + length content) (bare p))
unfolding parse framed
parse-framed p content rest h =
    let n = 4 + length content in
    rw
      (
        u16-be16 n h,
        ltb-false (length (framed p content rest)) n (omega (arith, length-append content rest)),
      )
      refl

encode-framed :
    (p : EapPacket) (rest : Bytes)
    → 4 + length (encode_body p) < 2 ^ 16
    → encode p ++ rest ≡ framed p (encode_body p) rest
unfolding encode framed
encode-framed p rest h =
    let e : (4 + length (encode_body p)) % 2 ^ 16 ≡ 4 + length (encode_body p) = omega arith in
    rw e refl

length-encode_body : (p : EapPacket) → length (encode_body p) ≤ 4 + length p.body
unfolding encode_body
length-encode_body p = ground arith

-- The data behind the reserved bytes, which the code only slices if there is some.
aka_data :
    (n : ℕ) (xs rest : Bytes)
    → n ≡ 8 + length xs
    → (if ltb 8 n then take (n - 8) (xs ++ rest) else []) ≡ xs
aka_data n [] rest e = rw (ltb-false 8 n (omega arith)) refl
aka_data n (x ∷ xs) rest e =
    let size : n - 8 ≡ length (x ∷ xs) = omega arith in
    rw (lt→ltb 8 n (omega arith), size, take-length-append (x ∷ xs) rest) refl

fields_of_content :
    (p : EapPacket) (rest : Bytes)
    → parse_fields (framed p (encode_body p) rest) (4 + length (encode_body p)) (bare p) ≡ carried p
unfolding encode_body parse_fields parse_aka framed
fields_of_content p rest = elim (Bool-cases (is_exchange p.code)) [
  | inr other ↦ rw other refl
  | inl exchange ↦ elim (Bool-cases (is_aka p.eap_type)) [
    | inr other ↦
        let n = 4 + length (p.eap_type ∷ p.body) in
        let size : n - 5 ≡ length p.body = omega arith in
        rw (exchange, other)
          (rw (lt→ltb 4 n (omega arith), other, size, take-length-append p.body rest) refl)
    | inl aka ↦
        let n = 4 + length (p.eap_type ∷ p.subtype ∷ 0 ∷ 0 ∷ p.body) in
        rw (exchange, aka)
          (rw
            (
              lt→ltb 4 n (omega arith),
              aka,
              lt→ltb 5 n (omega arith),
              aka_data n p.body rest (omega arith),
            )
            refl)
  ]
]

-- Parse reads what Encode wrote, in front of any other bytes, back as the same packet, but for the fields
-- that a packet of its code and type does not have, if the data leaves room for 8 bytes in 2^16.
pub parse-encode :
    (p : EapPacket) (rest : Bytes)
    → 8 + length p.body < 2 ^ 16
    → parse (encode p ++ rest) ≡ ok (carried p)
parse-encode p rest h =
    let size : 4 + length (encode_body p) < 2 ^ 16 = omega (arith, length-encode_body p) in
    rw
      (
        encode-framed p rest size,
        parse-framed p (encode_body p) rest size,
        fields_of_content p rest,
      )
      refl
