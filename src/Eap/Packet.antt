-- ===== src/Eap/Packet.antt =====
-- pkg/eap/packet.go: the EAP packet.
pub mod RoundTrip
use swu_go.Prelude.{
  ℕ, ◌+◌, ◌-◌, ◌%◌, ◌^◌, Bool, ◌||◌, [], ◌∷◌, ◌++◌, Result, ok, err, ltb, ◌==◌, if◌then◌else◌,
  shorter, length, slice_at,
}
use swu_go.Prelude.Bytes.{Bytes, byte_at, be16, u16_at}

abbrev pub code_request : ℕ
code_request = 1

abbrev pub code_response : ℕ
code_response = 2

abbrev pub type_aka : ℕ
type_aka = 23

abbrev pub type_aka_prime : ℕ
type_aka_prime = 50

pub record EapPacket : Type 0 where
  pub code : ℕ
  pub identifier : ℕ
  pub eap_type : ℕ
  pub subtype : ℕ
  pub body : Bytes

pub data EapError : Type 0 where
  eap_too_short : EapError
  eap_length_exceeds_data : EapError
  attribute_length_zero : EapError
  attribute_length_exceeds_data : EapError
  autn_too_short : EapError

unfoldable pub is_exchange : ℕ → Bool
is_exchange code = (code == code_request) || (code == code_response)

unfoldable pub is_aka : ℕ → Bool
is_aka eap_type = (eap_type == type_aka) || (eap_type == type_aka_prime)

-- What follows the type, in a packet of `n` bytes.
unfoldable pub parse_aka : Bytes → ℕ → EapPacket → EapPacket
parse_aka data' n p =
    if is_aka p.eap_type
    then (if ltb 5 n
        then (record p {
          subtype = byte_at 5 data';
          body = if ltb 8 n then slice_at 8 (n - 8) data' else [];
        })
        else p)
    else (record p { body = slice_at 5 (n - 5) data' })

unfoldable pub parse_fields : Bytes → ℕ → EapPacket → EapPacket
parse_fields data' n p =
    if is_exchange p.code
    then (if ltb 4 n then parse_aka data' n (record p { eap_type = byte_at 4 data' }) else p)
    else p

unfoldable pub parse : Bytes → Result EapError EapPacket
parse data' =
    if shorter data' 4
    then err eap_too_short
    else (let n = u16_at 2 data' in
        if ltb (length data') n
        then err eap_length_exceeds_data
        else ok (
            parse_fields data' n (record {
              code = byte_at 0 data';
              identifier = byte_at 1 data';
              eap_type = 0;
              subtype = 0;
              body = [];
            })))

-- The bytes behind the header.
unfoldable pub encode_body : EapPacket → Bytes
encode_body p =
    if is_exchange p.code
    then (if is_aka p.eap_type
        then p.eap_type ∷ p.subtype ∷ 0 ∷ 0 ∷ p.body
        else p.eap_type ∷ p.body)
    else []

unfoldable pub encode : EapPacket → Bytes
encode p = p.code ∷ p.identifier ∷ (be16 ((4 + length (encode_body p)) % 2 ^ 16) ++ encode_body p)
