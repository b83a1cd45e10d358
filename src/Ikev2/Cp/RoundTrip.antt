-- ===== src/Ikev2/Cp/RoundTrip.antt =====
-- payload_cp.go: what Encode writes, DecodePayloadCP reads back, and the decoder always ends.
use swu_go.Prelude.{
  ◌+◌, ◌%◌, ◌^◌, ◌<◌, ◌≡◌, List, [], ◌∷◌, ◌++◌, ok, leb-false, shorter-false, length, drop,
  length-append, take-append_eq, All, Returns, >>=-Returns, arith,
}
use swu_go.Prelude.Bytes.{Bytes, be16, u16-be16}
use swu_go.Ikev2.Types.{cp_too_short}
use swu_go.Prelude.Parse.{
  guard-Returns, parse_all, concat_map, ReadsBack, Progress, parse_all-concat_map,
  parse_all-Returns,
}
use swu_go.Ikev2.Cp.{
  CpAttribute, Cp, encode_cp_attribute, encode_cp, decode_cp_attribute, decode_cp,
}

-- The format bit of a configuration attribute is reserved, so a type has 15 bits.
pub record FitsCpAttribute (a : CpAttribute) : Type 0 where
  pub attr_type : a.attr_type < 0x8000
  pub value : length a.value < 2 ^ 16

length-encode_cp_attribute : (a : CpAttribute) → length (encode_cp_attribute a) ≡ 4 + length a.value
unfolding encode_cp_attribute
length-encode_cp_attribute a = omega arith

cp_attribute_back :
    (a : CpAttribute) → FitsCpAttribute a → ReadsBack decode_cp_attribute encode_cp_attribute a
unfolding decode_cp_attribute
cp_attribute_back a f = (
  omega (arith, length-encode_cp_attribute a),
  λ rest. rw (length-encode_cp_attribute a) (
      unfold encode_cp_attribute in
      (let e : length a.value % 2 ^ 16 ≡ length a.value = omega arith in
        let k : a.attr_type % 0x8000 ≡ a.attr_type = omega arith in
        rw (
          e,
          u16-be16 a.attr_type (omega arith),
          u16-be16 (length a.value) f.value,
          leb-false 0x8000 a.attr_type f.attr_type,
          shorter-false (be16 a.attr_type ++ (be16 (length a.value) ++ (a.value ++ rest)))
              (4 + length a.value) (omega (arith, length-append a.value rest)),
          take-append_eq (length a.value) a.value rest (omega arith),
          k,
        ))),
)

attributes_back :
    (xs : List CpAttribute)
    → All FitsCpAttribute xs
    → All (ReadsBack decode_cp_attribute encode_cp_attribute) xs
attributes_back [] h = tt
attributes_back (x ∷ xs) (h, hs) = (cp_attribute_back x h, attributes_back xs hs)

-- DecodePayloadCP reads what Encode wrote back as the same payload, if each attribute has a 15-bit
-- type and fewer than 2^16 bytes.
pub decode_cp-encode_cp :
    (p : Cp) → All FitsCpAttribute p.attributes → decode_cp (encode_cp p) ≡ ok p
unfolding decode_cp encode_cp
decode_cp-encode_cp p f = rw (
    parse_all-concat_map decode_cp_attribute encode_cp_attribute
      (length (concat_map encode_cp_attribute p.attributes)) p.attributes
      (attributes_back p.attributes f) (omega arith))

decode_cp_attribute-Progress : (buf : Bytes) → Progress (decode_cp_attribute buf)
unfolding decode_cp_attribute
decode_cp_attribute-Progress buf = ground arith

-- DecodePayloadCP returns on every input: no index is out of range, and its loop ends.
pub decode_cp-Returns : (buf : Bytes) → Returns (decode_cp buf)
unfolding decode_cp
decode_cp-Returns buf = guard-Returns 4 buf cp_too_short _ (
    >>=-Returns (parse_all decode_cp_attribute (length (drop 4 buf)) (drop 4 buf)) _
      (parse_all-Returns decode_cp_attribute decode_cp_attribute-Progress (length (drop 4 buf))
        (drop 4 buf) (omega arith))
      (λ a. tt))
