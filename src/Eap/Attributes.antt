-- ===== src/Eap/Attributes.antt =====
-- pkg/eap/packet.go: the attributes of an EAP-AKA packet.
pub mod RoundTrip
use swu_go.Prelude.{
  ℕ, zero, suc, ◌+◌, ◌-◌, ◌*◌, ◌/◌, ◌%◌, Bool, true, false, List, [], ◌∷◌, ◌++◌, Result, ok, err,
  stuck, ltb, ◌==◌, if◌then◌else◌, length, drop, slice_at, replicate,
}
use swu_go.Prelude.Bytes.{Bytes}
use swu_go.Prelude.Map.{put}
use swu_go.Eap.Packet.{EapError, attribute_length_zero, attribute_length_exceeds_data}

pub record AkaAttribute : Type 0 where
  pub attr_type : ℕ
  pub attr_length : ℕ
  pub value : Bytes

-- The map of ParseAttributes.
abbrev pub AttributeMap : Type 0
AttributeMap = List (ℕ × AkaAttribute)

-- The zeros that fill the last word.
abbrev pub attribute_pad : ℕ → ℕ
attribute_pad n = if n % 4 == 0 then 0 else 4 - n % 4

-- The value of Length that Encode sets.
unfoldable pub words_of : ℕ → ℕ
words_of n = (2 + n + attribute_pad (2 + n)) / 4 % 256

unfoldable pub encode_attribute : AkaAttribute → Bytes
encode_attribute a =
    let n = length a.value in
    a.attr_type ∷ words_of n ∷ (a.value ++ replicate (attribute_pad (2 + n)) 0)

unfoldable pub attribute_of : ℕ → ℕ → Bytes → AkaAttribute
attribute_of t w data' = record {
  attr_type = t;
  attr_length = w;
  value = slice_at 2 (w * 4 - 2) data';
}

-- The loop of ParseAttributes, at the rest of the data; a last single byte ends it.
unfoldable pub parse_from : ℕ → Bytes → AttributeMap → Result EapError AttributeMap
parse_from fuel [] attrs = ok attrs
parse_from fuel (t ∷ []) attrs = ok attrs
parse_from zero (t ∷ w ∷ rest) attrs = stuck
parse_from (suc fuel) (t ∷ w ∷ rest) attrs = elim (w * 4 == 0) [
  | true ↦ err attribute_length_zero
  | false ↦ elim (ltb (length (t ∷ w ∷ rest)) (w * 4)) [
    | true ↦ err attribute_length_exceeds_data
    | false ↦
        parse_from fuel (drop (w * 4) (t ∷ w ∷ rest))
          (put t (attribute_of t w (t ∷ w ∷ rest)) attrs)
  ]
]

unfoldable pub parse_attributes : Bytes → Result EapError AttributeMap
parse_attributes data' = parse_from (length data') data' []
