-- ===== src/Ikev2/Sa.antt =====
-- pkg/ikev2/payload_sa.go: the SA payload, a list of proposals, each with a list of transforms, each
-- with a list of attributes. An Encode method first writes the Last flags into the structures that
-- it is given: `settle_proposal` and `settle_sa` are these writes, and `emit_*` the bytes.
pub mod Transforms
pub mod RoundTrip
pub mod Total
mod Tests
use swu_go.Prelude.{
  ℕ, zero, suc, ◌+◌, ◌%◌, ◌^◌, Bool, true, false, ◌||◌, List, [], ◌∷◌, ◌++◌, map, Result, ok, err,
  stuck, ◌>>=◌, leb, ◌==◌, if◌then◌else◌, shorter, need, length, take, drop, slice_at, ltb,
}
use swu_go.Prelude.Bytes.{Bytes, byte_at, be16, u16_at}
use swu_go.Prelude.Parse.{parse_all, parse_n, concat_map}
use swu_go.Ikev2.Types.{
  Error, sa_no_proposal_header, sa_no_proposal_body, proposal_too_short, proposal_no_spi,
  proposal_no_transforms, proposal_no_transform_header, proposal_no_transform_body,
  transform_too_short, transform_no_attribute_header, transform_attribute_truncated,
  attribute_key_length,
}

-- TransformAttribute: `value` is the slice of the long form, and `val` the number of the short one.
pub record Attribute : Type 0 where
  pub attr_type : ℕ
  pub value : Bytes
  pub val : ℕ

pub record Transform : Type 0 where
  pub last : Bool
  pub transform_type : ℕ
  pub id : ℕ
  pub attributes : List Attribute

pub record Proposal : Type 0 where
  pub last : Bool
  pub proposal_num : ℕ
  pub protocol_id : ℕ
  pub spi : Bytes
  pub transforms : List Transform

-- `t & 0x7FFF` is `t % 0x8000`, and `t | 0x8000` is `t % 0x8000 + 0x8000` for a uint16.
pub emit_attribute : Attribute → Bytes
emit_attribute a =
    if shorter a.value 1
    then be16 (a.attr_type % 0x8000 + 0x8000) ++ be16 a.val
    else be16 (a.attr_type % 0x8000) ++ (be16 (length a.value % 2 ^ 16) ++ a.value)

-- The first byte of a proposal or transform: 0 on the last, else `more`.
abbrev last_byte : Bool → ℕ → ℕ
last_byte last more = if last then 0 else more

pub emit_transform : Transform → Bytes
emit_transform t =
    let attrs = concat_map emit_attribute t.attributes in
    last_byte t.last 3
    ∷ 0
    ∷ (be16 ((8 + length attrs) % 2 ^ 16) ++ (t.transform_type ∷ 0 ∷ (be16 t.id ++ attrs)))

-- The loop `for i, x := range xs` that sets `x.Last = (i == len(xs)-1)`.
abbrev mark_last : {A : Type 0} → (Bool → A → A) → List A → List A
mark_last set [] = []
mark_last set (x ∷ []) = set true x ∷ []
mark_last set (x ∷ (y ∷ xs)) = set false x ∷ mark_last set (y ∷ xs)

abbrev settle_transforms : List Transform → List Transform
settle_transforms = mark_last (λ b t. record t { last = b })

unfoldable pub settle_proposal : Proposal → Proposal
settle_proposal p = record p { transforms = settle_transforms p.transforms }

pub emit_proposal : Proposal → Bytes
emit_proposal p =
    let transforms = concat_map emit_transform p.transforms in
    last_byte p.last 2
    ∷ 0
    ∷ (be16 ((8 + length p.spi + length transforms) % 2 ^ 16)
        ++ (p.proposal_num
            ∷ p.protocol_id
            ∷ (length p.spi % 256)
            ∷ (length p.transforms % 256)
            ∷ (p.spi ++ transforms)))

-- The proposals as EncryptedPayloadSA.Encode leaves them.
unfoldable pub settle_sa : List Proposal → List Proposal
unfolding settle_proposal
settle_sa = mark_last (λ b p. settle_proposal (record p { last = b }))

unfoldable pub encode_sa : List Proposal → Bytes
encode_sa ps = concat_map emit_proposal (settle_sa ps)

-- One round of the loop of DecodeTransform.
decode_attribute : Bytes → Result Error (Attribute × ℕ)
decode_attribute buf =
    if shorter buf 4
    then err transform_no_attribute_header
    else need 4 buf (
        let attr_type = u16_at 0 buf in
        let val = u16_at 2 buf in
        if leb 0x8000 attr_type
        then ok (record { attr_type = attr_type % 0x8000; value = []; val = val }, 4)
        else if shorter buf (4 + val)
        then err transform_attribute_truncated
        else need (4 + val) buf (
            ok (
              record { attr_type = attr_type % 0x8000; value = slice_at 4 val buf; val = 0 },
              4 + val,
            )))

decode_transform : Bytes → Result Error Transform
decode_transform buf =
    if shorter buf 8
    then err transform_too_short
    else need 8 buf (do
      attributes ← parse_all decode_attribute (length (drop 8 buf)) (drop 8 buf)
      ok (record {
        last = byte_at 0 buf == 0;
        transform_type = byte_at 4 buf;
        id = u16_at 6 buf;
        attributes = attributes;
      }))

-- One round of the loop of DecodeProposal, at `data[offset:]`.
pub next_transform : Bytes → Result Error (Transform × ℕ)
next_transform buf =
    if shorter buf 1
    then err proposal_no_transforms
    else if shorter buf 4
    then err proposal_no_transform_header
    else need 4 buf (
        let trans_len = u16_at 2 buf in
        if shorter buf trans_len
        then err proposal_no_transform_body
        else need trans_len buf (do t ← decode_transform (take trans_len buf); ok (t, trans_len)))

decode_proposal : Bytes → Result Error Proposal
decode_proposal buf =
    if shorter buf 8
    then err proposal_too_short
    else need 8 buf (
        let spi_size = byte_at 6 buf in
        if shorter buf (8 + spi_size)
        then err proposal_no_spi
        else need (8 + spi_size) buf (do
          transforms ← parse_n next_transform (byte_at 7 buf) (drop spi_size (drop 8 buf))
          ok (record {
            last = byte_at 0 buf == 0;
            proposal_num = byte_at 4 buf;
            protocol_id = byte_at 5 buf;
            spi = slice_at 8 spi_size buf;
            transforms = transforms;
          })))

-- The front of a round of the loop of DecodePayloadSA, at `data[offset:]`.
next_proposal : Bytes → Result Error (Proposal × ℕ)
next_proposal buf =
    if shorter buf 4
    then err sa_no_proposal_header
    else need 4 buf (
        let prop_len = u16_at 2 buf in
        if shorter buf prop_len
        then err sa_no_proposal_body
        else need prop_len buf (do p ← decode_proposal (take prop_len buf); ok (p, prop_len)))

pub decode_proposals : ℕ → Bytes → Result Error (List Proposal)
decode_proposals fuel [] = ok []
decode_proposals zero (b ∷ bs) = stuck
decode_proposals (suc fuel) (b ∷ bs) = do
  (p, prop_len) ← next_proposal (b ∷ bs)
  ps ← elim (p.last || b == 0) [
    | true ↦ ok []
    | false ↦ decode_proposals fuel (drop prop_len (b ∷ bs))
  ]
  ok (p ∷ ps)

unfoldable pub decode_sa : Bytes → Result Error (List Proposal)
decode_sa buf = decode_proposals (length buf) buf

-- (*Proposal).AddTransform and AddTransformWithKeyLen, which differ only in how the list is built.
pub add_transform : Proposal → ℕ → ℕ → ℕ → Proposal
add_transform p t_type t_id key_len = record p {
  transforms =
      p.transforms
      ++ (record { last = false; transform_type = t_type; id = t_id; attributes = attrs } ∷ []);
}
  where
    attrs : List Attribute
    attrs =
        if ltb 0 key_len
        then record { attr_type = attribute_key_length; value = []; val = key_len % 2 ^ 16 } ∷ []
        else []

pub new_proposal : ℕ → ℕ → Bytes → Proposal
new_proposal num proto spi = record {
  last = false;
  proposal_num = num;
  protocol_id = proto;
  spi = spi;
  transforms = [];
}
