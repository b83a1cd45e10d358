-- ===== src/Ikev2/Cp.antt =====
-- pkg/ikev2/payload_cp.go: the configuration payload.
pub mod RoundTrip
pub mod Config
pub mod Fronts
mod Tests
use swu_go.Prelude.{
  ℕ, ◌+◌, ◌%◌, ◌^◌, List, ◌∷◌, ◌++◌, Result, ok, err, ◌>>=◌, leb, if◌then◌else◌, shorter, need,
  length, drop, slice_at,
}
use swu_go.Prelude.Bytes.{Bytes, byte_at, be16, u16_at}
use swu_go.Prelude.Parse.{parse_all, concat_map}
use swu_go.Ikev2.Types.{Error, cp_too_short, cp_attribute_too_short, cp_value_too_short}

pub record CpAttribute : Type 0 where
  pub attr_type : ℕ
  pub value : Bytes

pub record Cp : Type 0 where
  pub cfg_type : ℕ
  pub attributes : List CpAttribute

pub encode_cp_attribute : CpAttribute → Bytes
encode_cp_attribute a = be16 a.attr_type ++ (be16 (length a.value % 2 ^ 16) ++ a.value)

unfoldable pub encode_cp : Cp → Bytes
encode_cp p = p.cfg_type ∷ 0 ∷ 0 ∷ 0 ∷ concat_map encode_cp_attribute p.attributes

-- The attribute, and the bytes read. `rawType & 0x8000` is set if the type is 0x8000 or more.
pub decode_cp_attribute : Bytes → Result Error (CpAttribute × ℕ)
decode_cp_attribute buf =
    if shorter buf 4
    then err cp_attribute_too_short
    else need 4 buf (
        let raw_type = u16_at 0 buf in
        let attr_len = u16_at 2 buf in
        if leb 0x8000 raw_type
        then ok (record { attr_type = raw_type % 0x8000; value = slice_at 2 2 buf }, 4)
        else if shorter buf (4 + attr_len)
        then err cp_value_too_short
        else need (4 + attr_len) buf (
            ok (
              record { attr_type = raw_type % 0x8000; value = slice_at 4 attr_len buf },
              4 + attr_len,
            )))

unfoldable pub decode_cp : Bytes → Result Error Cp
decode_cp buf =
    if shorter buf 4
    then err cp_too_short
    else need 4 buf (do
      attributes ← parse_all decode_cp_attribute (length (drop 4 buf)) (drop 4 buf)
      ok (record { cfg_type = byte_at 0 buf; attributes = attributes }))
