-- ===== src/Swu/Message.antt =====
-- pkg/swu/msg_handler.go, and the SKF payloads of fragment.go: encrypted messages.
pub mod Payloads
pub mod Padding
mod Ends
pub mod Opening
pub mod RoundTrip
pub mod Fragments
pub mod Tests
use swu_go.Prelude.{
  ℕ, zero, suc, ◌+◌, ◌-◌, ◌*◌, ◌%◌, ◌^◌, Bool, true, false, not, Option, none, some, List, [], ◌∷◌,
  ◌++◌, Result, ok, err, panic, stuck, ◌>>=◌, ◌>>◌, fail_if, ltb, ◌==◌, if◌then◌else◌, shorter,
  length, take, drop, slice_at, replicate,
}
use swu_go.Prelude.Bytes.{Bytes, byte_at, be16, u16_at}
use swu_go.Ikev2.Types.{
  no_next_payload, sk_type, encrypted_fragment_type, flag_initiator, flag_response,
}
use swu_go.Ikev2.Header.{
  IkeHeader, encode_header, decode_header, encode_payload_header, decode_payload_header,
  generic_header, ike_header_len, payload_header_len,
}
use swu_go.Ikev2.Payload.{Payload, decode_payload}
use swu_go.Ikev2.Packet.{first_type, encode_chain, decode_packet}
use swu_go.Crypto.{Encrypter, IntegrityAlgorithm}
use swu_go.Swu.Error.{
  SwuError, lift, no_randomness, invalid_block_size, encryption_failed, encryption_length_mismatch,
  length_field_mismatch, skf_no_generic_header, skf_no_fragment_header, skf_no_iv, skf_no_icv,
  sk_too_short, sk_no_iv, sk_no_icv, integrity_failed, decryption_failed, plaintext_too_short,
  padding_invalid, payload_too_short,
}
use swu_go.Swu.Fragment.{add_fragment, reassemble}
use swu_go.Swu.Session.{Session, integrity, icv_size, next_sequence_number}

abbrev pub or_fail : {A : Type 0} → SwuError → Option A → Result SwuError A
or_fail e none = err e
or_fail e (some a) = ok a

-- One round of the loop of parsePayloads, behind its `break`: unlike in DecodePacket an error is not
-- wrapped.
pub next_payload : ℕ → Bytes → Result SwuError (Payload × ℕ × ℕ)
next_payload t buf = do
  h ← lift (decode_payload_header (take payload_header_len buf))
  fail_if (shorter buf h.payload_length) payload_too_short
  if ltb h.payload_length payload_header_len then panic else do
    p ← lift (decode_payload t (take (h.payload_length - 4) (drop 4 buf)))
    ok (p, h.next_payload, h.payload_length)

pub parse_loop : ℕ → ℕ → Bytes → Result SwuError (List Payload)
parse_loop fuel t [] = ok []
parse_loop zero t (b ∷ bs) = stuck
parse_loop (suc fuel) t (b ∷ bs) = elim (t == no_next_payload) [
  | true ↦ ok []
  | false ↦ elim (shorter (b ∷ bs) payload_header_len) [
    | true ↦ ok []
    | false ↦ do
      (p, next, n) ← next_payload t (b ∷ bs)
      ps ← parse_loop fuel next (drop n (b ∷ bs))
      ok (p ∷ ps)
  ]
]

pub parse_payloads : Bytes → ℕ → Result SwuError (List Payload)
parse_payloads buf first = parse_loop (length buf) first buf

-- The padding length for CBC, so that text, padding and its length byte fill whole blocks.
abbrev pub pad_len : ℕ → ℕ → ℕ
pad_len block_size len =
    let rem = (len + 1) % block_size in if rem == 0 then 0 else block_size - rem

-- The text to encrypt, and the length of ciphertext that is expected.
unfoldable pub pad : Session → Bytes → Result SwuError (Bytes × ℕ)
pad s inner =
    if s.ike_is_aead
    then ok (inner, length inner + 16)
    else if s.enc_alg.block_size == 0
    then err invalid_block_size
    else (let n = pad_len s.enc_alg.block_size (length inner) in
        let padded = inner ++ (replicate n 0 ++ ((n % 256) ∷ [])) in ok (padded, length padded))

-- The tag of a packet, as bytes to append.
abbrev pub tag : Session → Bytes → Bytes
tag s packet = elim (integrity s) [ none ↦ [] | some a ↦ a.compute s.keys.sk_ai packet ]

-- encryptAndWrapWithMsgID. `random` is what crypto.RandomBytes gives for the IV, `none` its error.
pub encrypt_and_wrap_with_msg_id :
    Session → List Payload → ℕ → ℕ → Bool → Option Bytes → Result SwuError Bytes
encrypt_and_wrap_with_msg_id s payloads exchange msg_id is_response random = do
  inner ← lift (encode_chain payloads)
  iv ← or_fail no_randomness random
  (plain, expected) ← pad s inner
  let hdr : IkeHeader = record {
    spi_i = s.spi_i;
    spi_r = s.spi_r;
    next_payload = sk_type;
    version = 0x20;
    exchange_type = exchange;
    flags = if is_response then flag_initiator + flag_response else flag_initiator;
    message_id = msg_id;
    length = (ike_header_len + 4 + length iv + expected + icv_size s) % 2 ^ 32;
  }
  let aad = encode_header hdr
  cipher ← or_fail encryption_failed (s.enc_alg.encrypt plain s.keys.sk_ei iv aad)
  fail_if (not (length cipher == expected)) encryption_length_mismatch
  let sk_header = encode_payload_header (
      generic_header (first_type payloads) false
        ((4 + length iv + length cipher + icv_size s) % 2 ^ 16))
  let body = aad ++ (sk_header ++ (iv ++ cipher))
  let packet = body ++ tag s body
  fail_if (not (length packet % 2 ^ 32 == hdr.length)) length_field_mismatch
  ok packet

-- encryptAndWrap, which takes the next message ID.
unfoldable pub encrypt_and_wrap :
    Session → List Payload → ℕ → Bool → Option Bytes → Session × Result SwuError Bytes
unfolding next_sequence_number
encrypt_and_wrap s payloads exchange is_response random =
    let (s', msg_id) = next_sequence_number s in
    (s', encrypt_and_wrap_with_msg_id s' payloads exchange msg_id is_response random)

-- The check of the tag: the ciphertext without it. `covered` is the length of what stands before the
-- ciphertext, and `missing` the error for a text that is shorter than a tag.
pub strip_tag : Session → Bytes → ℕ → SwuError → Bytes → Result SwuError Bytes
strip_tag s packet covered missing text = elim (integrity s) [
  | none ↦ ok text
  | some a ↦ do
    fail_if (shorter text a.output_size) missing
    let cipher = take (length text - a.output_size) text
    let received = drop (length text - a.output_size) text
    fail_if (not (a.verify s.keys.sk_ar (take (covered + length cipher) packet) received))
        integrity_failed
    ok cipher
]

-- The removal of the padding, which AEAD messages do not have.
pub unpad : Session → Bytes → Result SwuError Bytes
unpad s plain =
    if s.ike_is_aead
    then ok plain
    else if shorter plain 1
    then err plaintext_too_short
    else (let n = byte_at (length plain - 1) plain in
        if shorter plain (1 + n)
        then err padding_invalid
        else ok (take (length plain - 1 - n) plain))

-- decryptAndParse on an SK payload. `data[28:32]` is not guarded, and panics on a shorter message; so
-- does the slice of the content if the payload length is below 4.
pub open_sk : Session → Bytes → Result SwuError (List Payload)
open_sk s packet = if shorter packet 32 then panic else do
  h ← lift (decode_payload_header (slice_at 28 4 packet))
  fail_if (shorter packet (28 + h.payload_length)) sk_too_short
  if ltb h.payload_length 4 then panic else do
    let content = slice_at 32 (h.payload_length - 4) packet
    fail_if (shorter content s.enc_alg.iv_size) sk_no_iv
    let iv = take s.enc_alg.iv_size content
    cipher ← strip_tag s packet (32 + s.enc_alg.iv_size) sk_no_icv (drop s.enc_alg.iv_size content)
    plain ← or_fail decryption_failed (s.enc_alg.decrypt cipher s.keys.sk_er iv (take 28 packet))
    text ← unpad s plain
    parse_payloads text h.next_payload

-- A decrypted fragment.
pub record OpenFragment : Type 0 where
  pub text : Bytes
  pub number : ℕ
  pub total : ℕ

-- decryptSKF behind DecodeHeader.
unfoldable pub decrypt_skf : Session → Bytes → Result SwuError OpenFragment
decrypt_skf s packet = do
  fail_if (shorter packet 32) skf_no_generic_header
  fail_if (shorter packet 36) skf_no_fragment_header
  fail_if (shorter packet (36 + s.enc_alg.iv_size)) skf_no_iv
  let iv = slice_at 36 s.enc_alg.iv_size packet
  cipher ←
      strip_tag s packet (36 + s.enc_alg.iv_size) skf_no_icv
        (drop s.enc_alg.iv_size (drop 36 packet))
  plain ← or_fail decryption_failed (s.enc_alg.decrypt cipher s.keys.sk_er iv (take 28 packet))
  text ← unpad s plain
  ok (record { text = text; number = u16_at 32 packet; total = u16_at 34 packet })

-- The branch of decryptAndParse for a fragment. The type of the first payload is the byte 28 of the
-- message at hand, the one that completes the set. (The text that Go puts before an error of decryptSKF is
-- left out.)
pub take_fragment :
    Session → Bytes → ℕ → Result SwuError OpenFragment → Session × Result SwuError (List Payload)
take_fragment s packet id (err e) = (s, err e)
take_fragment s packet id panic = (s, panic)
take_fragment s packet id stuck = (s, stuck)
take_fragment s packet id (ok f) =
    let (fb, complete) = add_fragment id f.number f.total f.text s.fragment_buf in
    elim complete [
      | err e ↦ (record s { fragment_buf = fb }, err e)
      | panic ↦ (record s { fragment_buf = fb }, panic)
      | stuck ↦ (record s { fragment_buf = fb }, stuck)
      | ok false ↦ (record s { fragment_buf = fb }, ok [])
      | ok true ↦
          let (fb', joined) = reassemble id fb in
          (
            record s { fragment_buf = fb' },
            do text ← joined; parse_payloads text (byte_at 28 packet),
          )
    ]

-- decryptAndParse: the session, and the message ID with the payloads. The responder's SPI is taken from
-- any header that decodes, before anything is verified. (The ID that Go returns beside an error is
-- left out.)
dispatch : Session → Bytes → IkeHeader → Session × Result SwuError (List Payload)
dispatch s packet h =
    if h.next_payload == encrypted_fragment_type
    then take_fragment s packet h.message_id (decrypt_skf s packet)
    else if not (h.next_payload == sk_type)
    then (s, (do (_, ps) ← lift (decode_packet packet); ok ps))
    else (s, open_sk s packet)

abbrev with_id :
    ℕ → Session × Result SwuError (List Payload) → Session × Result SwuError (ℕ × List Payload)
with_id id (s, r) = (s, r >>= λ ps. ok (id, ps))

decrypt_decoded :
    Session → Bytes → Result SwuError IkeHeader → Session × Result SwuError (ℕ × List Payload)
decrypt_decoded s packet (ok h) =
    with_id h.message_id (dispatch (record s { spi_r = h.spi_r }) packet h)
decrypt_decoded s packet (err e) = (s, err e)
decrypt_decoded s packet panic = (s, panic)
decrypt_decoded s packet stuck = (s, stuck)

pub decrypt_and_parse : Session → Bytes → Session × Result SwuError (ℕ × List Payload)
decrypt_and_parse s packet = decrypt_decoded s packet (lift (decode_header packet))
