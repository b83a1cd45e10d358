-- ===== src/Ikev2/Sa/Transforms.antt =====
-- payload_sa.go: the bytes of attributes and transforms, read back.
use swu_go.Prelude.{
  ℕ, suc, ◌+◌, ◌%◌, ◌^◌, ◌≤◌, ◌<◌, ◌≡◌, refl, ap, ◌∙◌, ◌⊎◌, inl, inr, Bool, true, false, List, [],
  ◌∷◌, ◌++◌, ok, leb-false, ◌==◌, shorter, shorter-false, length, length-append, take-append_eq,
  take-length-append, All, arith,
}
use swu_go.Prelude.Bytes.{Bytes, be16, u16_at, u16-be16}
use swu_go.Prelude.Parse.{parse_all, concat_map, ReadsBack, parse_all-concat_map}
use swu_go.Ikev2.Sa.{
  Attribute, Transform, emit_attribute, emit_transform, decode_attribute, decode_transform,
  next_transform, last_byte,
}

-- A TV attribute has a number and no bytes, a TLV attribute has bytes and the number 0.
pub record FitsAttribute (a : Attribute) : Type 0 where
  pub attr_type : a.attr_type < 0x8000
  pub val : a.val < 2 ^ 16
  pub value : length a.value < 2 ^ 16
  pub one_form : (a.value ≡ []) ⊎ (a.val ≡ 0)

pub record FitsTransform (t : Transform) : Type 0 where
  pub id : t.id < 2 ^ 16
  pub attributes : All FitsAttribute t.attributes
  pub size : 8 + length (concat_map emit_attribute t.attributes) < 2 ^ 16

attribute : ℕ → Bytes → ℕ → Attribute
attribute t value val = record { attr_type = t; value = value; val = val }

short_back :
    (t val : ℕ) (rest : Bytes)
    → t < 0x8000
    → val < 2 ^ 16
    → decode_attribute (emit_attribute (attribute t [] val) ++ rest) ≡ ok (attribute t [] val, 4)
unfolding decode_attribute emit_attribute attribute
short_back t val rest ht hv =
    rw (u16-be16 (t % 0x8000 + 0x8000) (omega arith), u16-be16 val hv) (ground arith)

t_mod : (t : ℕ) → t < 0x8000 → t % 0x8000 % 0x8000 ≡ t
t_mod t h = omega arith

long_back :
    (t b : ℕ) (bs rest : Bytes)
    → t < 0x8000
    → length (b ∷ bs) < 2 ^ 16
    → decode_attribute (emit_attribute (attribute t (b ∷ bs) 0) ++ rest)
      ≡ ok (attribute t (b ∷ bs) 0, 4 + length (b ∷ bs))
unfolding decode_attribute emit_attribute attribute
long_back t b bs rest ht hv =
    let e : suc (length bs) % 2 ^ 16 ≡ suc (length bs) = omega arith in
    rw
      (
        u16-be16 (t % 0x8000) (omega arith),
        leb-false 0x8000 (t % 0x8000) (omega arith),
        e,
        u16-be16 (suc (length bs)) hv,
      )
      (rw
        (
          shorter-false (be16 (t % 0x8000) ++ (be16 (suc (length bs)) ++ (b ∷ (bs ++ rest))))
              (4 + suc (length bs)) (omega (arith, length-append bs rest)),
          take-append_eq (suc (length bs)) (b ∷ bs) rest (omega arith),
        )
        (λ i. ok (attribute (t_mod t ht i) (b ∷ bs) 0, 4 + suc (length bs))))

attribute_fields_back :
    (t : ℕ) (xs : Bytes) (v : ℕ)
    → (xs ≡ []) ⊎ (v ≡ 0)
    → t < 0x8000
    → v < 2 ^ 16
    → length xs < 2 ^ 16
    → ReadsBack decode_attribute emit_attribute (attribute t xs v)
unfolding emit_attribute attribute
attribute_fields_back t [] v o ht hv hx = (omega arith, λ rest. short_back t v rest ht hv)
attribute_fields_back t (b ∷ bs) v (inl e) ht hv hx = cc
attribute_fields_back t (b ∷ bs) v (inr e) ht hv hx = rw e (
  omega arith,
  λ rest.
      long_back t b bs rest ht hx ∙ ap (λ (n : ℕ). ok (attribute t (b ∷ bs) 0, n)) (omega arith),
)

attribute_back : (a : Attribute) → FitsAttribute a → ReadsBack decode_attribute emit_attribute a
unfolding attribute
attribute_back a f =
    attribute_fields_back a.attr_type a.value a.val f.one_form f.attr_type f.val f.value

pub All-map :
    {A : Type 0} {P Q : A → Type 0} (f : (a : A) → P a → Q a) (xs : List A) → All P xs → All Q xs
All-map f [] h = tt
All-map f (x ∷ xs) h = (f x h.0, All-map f xs h.1)

attributes_back :
    (xs : List Attribute)
    → All FitsAttribute xs
    → parse_all decode_attribute
        (length (concat_map emit_attribute xs))
        (concat_map emit_attribute xs)
      ≡ ok xs
attributes_back xs h =
    parse_all-concat_map decode_attribute emit_attribute _ xs (All-map attribute_back xs h)
      (omega arith)

pub last_byte_back : (b : Bool) (more : ℕ) → 0 < more → (last_byte b more == 0) ≡ b
last_byte_back true more h = refl
last_byte_back false more h = ground arith

decode_transform-emit :
    (t : Transform) → FitsTransform t → decode_transform (emit_transform t) ≡ ok t
unfolding decode_transform emit_transform
decode_transform-emit t f = rw (attributes_back t.attributes f.attributes) (λ i. ok (record {
  last = last_byte_back t.last 3 (omega arith) i;
  transform_type = t.transform_type;
  id = u16-be16 t.id f.id i;
  attributes = t.attributes;
}))

pub length-emit_transform :
    (t : Transform)
    → length (emit_transform t) ≡ 8 + length (concat_map emit_attribute t.attributes)
unfolding emit_transform
length-emit_transform t = omega arith

transform_length_field :
    (t : Transform) (rest : Bytes)
    → FitsTransform t
    → u16_at 2 (emit_transform t ++ rest) ≡ length (emit_transform t)
unfolding emit_transform
transform_length_field t rest f =
    let n = 8 + length (concat_map emit_attribute t.attributes) in
    omega (arith, u16-be16 (n % 2 ^ 16))

-- A message read by length: the first `n` bytes are there, and are those of `xs`.
module _ (xs rest : Bytes) (n : ℕ) (h : 4 ≤ length xs) where
  pub long_enough : n ≤ length xs → shorter (xs ++ rest) n ≡ false
  long_enough k = shorter-false (xs ++ rest) n (omega (arith, length-append xs rest))

pub next_transform_back :
    (t : Transform) → FitsTransform t → ReadsBack next_transform emit_transform t
unfolding next_transform
next_transform_back t f = (
  omega (arith, length-emit_transform t),
  λ rest.
      let h : 4 ≤ length (emit_transform t) = omega (arith, length-emit_transform t) in
      rw (
        long_enough (emit_transform t) rest 1 h (omega arith),
        long_enough (emit_transform t) rest 4 h h,
        transform_length_field t rest f,
        long_enough (emit_transform t) rest (length (emit_transform t)) h (omega arith),
        take-length-append (emit_transform t) rest,
        decode_transform-emit t f,
      ),
)
