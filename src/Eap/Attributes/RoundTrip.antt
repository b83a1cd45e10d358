-- ===== src/Eap/Attributes/RoundTrip.antt =====
-- packet.go: ParseAttributes reads back the attributes that were encoded one behind the other.
use swu_go.Prelude.{
  ◌∙◌, ℕ, zero, suc, ◌+◌, ◌-◌, ◌*◌, ◌≤◌, ◌≡◌, refl, false, Bool-cases, inl, inr, List, [], ◌∷◌,
  ◌++◌, ok, ltb, ltb-false, ◌==◌, ==_false, length, length-append, length-replicate, length-drop,
  take-length-append, drop-length-append, drop, replicate, All, Returns, arith,
}
use swu_go.Prelude.Bytes.{Bytes}
use swu_go.Prelude.Map.{put}
use swu_go.Prelude.Parse.{concat_map}
use swu_go.Eap.Attributes.{
  AkaAttribute, attribute_of, AttributeMap, attribute_pad, words_of, encode_attribute, parse_from,
  parse_attributes,
}

-- The value of an attribute has 1018 bytes at most, which are 255 words with the two bytes in front.
abbrev pub FitsAttribute : AkaAttribute → Type 0
FitsAttribute a = length a.value ≤ 1018

-- An attribute as Encode writes it: with the length in words, and zeros behind the value.
abbrev pub padded : AkaAttribute → AkaAttribute
padded a =
    let n = length a.value in
    record a { attr_length = words_of n; value = a.value ++ replicate (attribute_pad (2 + n)) 0 }

-- The attributes, put into the map in their order: the last one of a type stays.
abbrev pub put_all : List AkaAttribute → AttributeMap → AttributeMap
put_all [] attrs = attrs
put_all (a ∷ more) attrs = put_all more (put a.attr_type (padded a) attrs)

words_of_exact : (n : ℕ) → n ≤ 1018 → words_of n * 4 ≡ 2 + n + attribute_pad (2 + n)
unfolding words_of
words_of_exact n h = ground arith

one_attribute :
    (fuel t w : ℕ) (content rest : Bytes) (attrs : AttributeMap)
    → w * 4 ≡ suc (suc (length content))
    → parse_from (suc fuel) (t ∷ w ∷ (content ++ rest)) attrs
      ≡ parse_from fuel rest
          (put t (record { attr_type = t; attr_length = w; value = content }) attrs)
unfolding parse_from attribute_of
one_attribute fuel t w content rest attrs words =
    let size = suc (suc (length content)) in
    let value_size : size - 2 ≡ length content = omega arith in
    let some_words : (w * 4 == 0) ≡ false = ==_false (w * 4) 0 (λ e. absurd (omega arith)) in
    let fits : ltb (length (t ∷ w ∷ (content ++ rest))) (w * 4) ≡ false =
      ltb-false (length (t ∷ w ∷ (content ++ rest))) (w * 4)
        (omega (arith, length-append content rest)) in
    rw (some_words, parse_from)
      (rw fits (
        rw (words, drop-length-append content rest, value_size, take-length-append content rest)
          refl))

length-encode_attribute :
    (a : AkaAttribute)
    → length (encode_attribute a) ≡ 2 + (length a.value + attribute_pad (2 + length a.value))
unfolding encode_attribute
length-encode_attribute a =
    let n = length a.value in
    omega (
      arith,
      length-append a.value (replicate (attribute_pad (2 + n)) 0),
      length-replicate {A = ℕ} (attribute_pad (2 + n)) 0,
    )

padded_back :
    (fuel : ℕ) (a : AkaAttribute) (rest : Bytes) (attrs : AttributeMap)
    → FitsAttribute a
    → parse_from (suc fuel) (encode_attribute a ++ rest) attrs
      ≡ parse_from fuel rest (put a.attr_type (padded a) attrs)
unfolding encode_attribute
padded_back fuel a rest attrs h =
    let n = length a.value in
    let content = a.value ++ replicate (attribute_pad (2 + n)) 0 in
    one_attribute fuel a.attr_type (words_of n) content rest attrs (
      omega (
        arith,
        words_of_exact n h,
        length-append a.value (replicate (attribute_pad (2 + n)) 0),
        length-replicate {A = ℕ} (attribute_pad (2 + n)) 0,
      ))

list_back :
    (fuel : ℕ) (items : List AkaAttribute) (attrs : AttributeMap)
    → All FitsAttribute items
    → length (concat_map encode_attribute items) ≤ fuel
    → parse_from fuel (concat_map encode_attribute items) attrs ≡ ok (put_all items attrs)
unfolding parse_from
list_back fuel [] attrs h f = refl
list_back zero (a ∷ items) attrs h f = absurd (
    omega (
      arith,
      length-append (encode_attribute a) (concat_map encode_attribute items),
      length-encode_attribute a,
    ))
list_back (suc fuel) (a ∷ items) attrs (h, hs) f =
    padded_back fuel a (concat_map encode_attribute items) attrs h
    ∙ list_back fuel items (put a.attr_type (padded a) attrs) hs (
        omega (
          arith,
          length-append (encode_attribute a) (concat_map encode_attribute items),
          length-encode_attribute a,
        ))

-- ParseAttributes reads attributes that were encoded one behind the other, each with a value of at most
-- 1018 bytes, as the map that the attributes, padded, are put into in their order: of two with one type
-- the last stays.
pub parse_attributes-encode_attribute :
    (items : List AkaAttribute)
    → All FitsAttribute items
    → parse_attributes (concat_map encode_attribute items) ≡ ok (put_all items [])
unfolding parse_attributes
parse_attributes-encode_attribute items h =
    list_back (length (concat_map encode_attribute items)) items [] h (omega arith)

from-Returns :
    (fuel : ℕ) (data' : Bytes) (attrs : AttributeMap)
    → length data' ≤ fuel
    → Returns (parse_from fuel data' attrs)
unfolding parse_from
from-Returns fuel [] attrs h = tt
from-Returns fuel (t ∷ []) attrs h = tt
from-Returns zero (t ∷ w ∷ rest) attrs h = absurd (omega arith)
from-Returns (suc fuel) (t ∷ w ∷ rest) attrs h = elim (Bool-cases (w * 4 == 0)) [
  | inl none ↦ rw (none, Returns, parse_from) tt
  | inr some ↦ elim (Bool-cases (ltb (length (t ∷ w ∷ rest)) (w * 4))) [
    | inl long ↦ rw (some, Returns, parse_from) (rw long tt)
    | inr fits ↦
        let pos : 1 ≤ w * 4 = ground arith in
        rw (some, Returns, parse_from)
          (rw fits (
            from-Returns fuel (drop (w * 4) (t ∷ w ∷ rest)) _
              (omega (arith, length-drop (w * 4) (t ∷ w ∷ rest)))))
  ]
]

-- ParseAttributes returns on every input: its slices are in range, and its loop ends.
pub parse_attributes-Returns : (data' : Bytes) → Returns (parse_attributes data')
unfolding parse_attributes
parse_attributes-Returns data' = from-Returns (length data') data' [] (omega arith)
