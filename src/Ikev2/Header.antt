-- ===== src/Ikev2/Header.antt =====
-- pkg/ikev2/header.go and payload.go: the header of a message, and the generic header that stands
-- before each payload.
use swu_go.Prelude.{
  ℕ, ◌%◌, ◌^◌, ◌<◌, ◌≡◌, Bool, true, false, ◌∷◌, ◌++◌, Result, ok, err, leb, if◌then◌else◌, shorter,
}
use swu_go.Prelude.Bytes.{
  Bytes, byte_at, be16, be32, be64, u16_at, u32_at, u64_at, u16-be16, u32-be32, u64-be64,
}
use swu_go.Ikev2.Types.{Error, header_too_short, generic_header_too_short}

abbrev pub ike_header_len : ℕ
ike_header_len = 28

abbrev pub payload_header_len : ℕ
payload_header_len = 4

-- `length` is the field Length, which counts the whole message.
pub record IkeHeader : Type 0 where
  pub spi_i : ℕ
  pub spi_r : ℕ
  pub next_payload : ℕ
  pub version : ℕ
  pub exchange_type : ℕ
  pub flags : ℕ
  pub message_id : ℕ
  pub length : ℕ

unfoldable pub encode_header : IkeHeader → Bytes
encode_header h =
    be64 h.spi_i
    ++ be64 h.spi_r
    ++ (h.next_payload
        ∷ h.version
        ∷ h.exchange_type
        ∷ h.flags
        ∷ (be32 h.message_id ++ be32 h.length))

unfoldable pub decode_header : Bytes → Result Error IkeHeader
decode_header buf =
    if shorter buf ike_header_len
    then err header_too_short
    else ok (record {
      spi_i = u64_at 0 buf;
      spi_r = u64_at 8 buf;
      next_payload = byte_at 16 buf;
      version = byte_at 17 buf;
      exchange_type = byte_at 18 buf;
      flags = byte_at 19 buf;
      message_id = u32_at 20 buf;
      length = u32_at 24 buf;
    })

-- The widths of the fields of more than one byte.
pub record FitsHeader (h : IkeHeader) : Type 0 where
  pub spi_i : h.spi_i < 2 ^ 64
  pub spi_r : h.spi_r < 2 ^ 64
  pub message_id : h.message_id < 2 ^ 32
  pub length : h.length < 2 ^ 32

-- The header that Encode writes is read back by DecodeHeader, whatever follows it.
pub decode_header-encode_header :
    (h : IkeHeader) (rest : Bytes) → FitsHeader h → decode_header (encode_header h ++ rest) ≡ ok h
unfolding decode_header encode_header
decode_header-encode_header h rest f = λ i. ok (record {
  spi_i = u64-be64 h.spi_i f.spi_i i;
  spi_r = u64-be64 h.spi_r f.spi_r i;
  next_payload = h.next_payload;
  version = h.version;
  exchange_type = h.exchange_type;
  flags = h.flags;
  message_id = u32-be32 h.message_id f.message_id i;
  length = u32-be32 h.length f.length i;
})

pub record PayloadHeader : Type 0 where
  pub next_payload : ℕ
  pub critical : Bool
  pub reserved : ℕ
  pub payload_length : ℕ

-- Reserved is not written.
unfoldable pub encode_payload_header : PayloadHeader → Bytes
encode_payload_header h = h.next_payload ∷ (if h.critical then 0x80 else 0) ∷ be16 h.payload_length

-- For a byte `b`, `b & 0x80 != 0` is `0x80 <= b`, and `b & 0x7F` is `b % 0x80`.
unfoldable pub decode_payload_header : Bytes → Result Error PayloadHeader
decode_payload_header buf =
    if shorter buf payload_header_len
    then err generic_header_too_short
    else ok (record {
      next_payload = byte_at 0 buf;
      critical = leb 0x80 (byte_at 1 buf);
      reserved = byte_at 1 buf % 0x80;
      payload_length = u16_at 2 buf;
    })

-- The literal &PayloadHeader{...}, whose Reserved is 0.
abbrev pub generic_header : ℕ → Bool → ℕ → PayloadHeader
generic_header next critical len = record {
  next_payload = next;
  critical = critical;
  reserved = 0;
  payload_length = len;
}

pub decode_payload_header-encode :
    (next : ℕ) (critical : Bool) (len : ℕ) (rest : Bytes)
    → len < 2 ^ 16
    → decode_payload_header (encode_payload_header (generic_header next critical len) ++ rest)
      ≡ ok (generic_header next critical len)
unfolding decode_payload_header encode_payload_header
decode_payload_header-encode next true len rest f =
    λ i. ok (generic_header next true (u16-be16 len f i))
decode_payload_header-encode next false len rest f =
    λ i. ok (generic_header next false (u16-be16 len f i))
