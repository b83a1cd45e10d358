-- ===== src/Swu/Message/RoundTrip.antt =====
-- msg_handler.go: a message that encryptAndWrapWithMsgID writes is opened by the other end.
use swu_go.Prelude.{
  ℕ, ◌+◌, ◌%◌, ◌^◌, ◌≤◌, ◌<◌, ◌≡◌, refl, sym, ap, ◌∙◌, Bool, true, false, not, some, List, ◌++◌,
  append_assoc, map, ok, ◌>>=◌, fail_if, ◌==◌, ==_refl, if◌then◌else◌, length, All, arith,
}
use swu_go.Prelude.Bytes.{Bytes}
use swu_go.Ikev2.Header.{IkeHeader, encode_header, encode_payload_header, generic_header}
use swu_go.Ikev2.Payload.{Payload}
use swu_go.Ikev2.Payload.RoundTrip.{settle}
use swu_go.Ikev2.Packet.{first_type, encode_chain}
use swu_go.Ikev2.Packet.RoundTrip.{FitsPayload}
use swu_go.Swu.Error.{length_field_mismatch}
use swu_go.Swu.Session.{Session, icv_size}
use swu_go.Swu.Message.{pad, encrypt_and_wrap_with_msg_id, decrypt_and_parse}
use swu_go.Swu.Message.Payloads.{parse_payloads-encode_chain}
use swu_go.Swu.Message.Padding.{overhead, unpad-pad}
use swu_go.Ikev2.Types.{sk_type, flag_initiator, flag_response}
use swu_go.Swu.Message.Opening.{
  other_end, Works, front_bytes, covered_bytes, sealed, length-sealed, open_sk-sealed,
  decode_header-sealed, decrypt_and_parse_opens,
}

-- The header of a sealed message.
abbrev sealed_header : Session → ℕ → ℕ → Bool → ℕ → IkeHeader
sealed_header s exchange msg_id is_response total = record {
  spi_i = s.spi_i;
  spi_r = s.spi_r;
  next_payload = sk_type;
  version = 0x20;
  exchange_type = exchange;
  flags = if is_response then flag_initiator + flag_response else flag_initiator;
  message_id = msg_id;
  length = total % 2 ^ 32;
}

-- The check of the length field.
length_matches :
    (packet : Bytes) (len : ℕ) (q : Bytes)
    → packet ≡ q
    → length q % 2 ^ 32 ≡ len
    → (fail_if (not (length packet % 2 ^ 32 == len)) length_field_mismatch >>= λ _. ok packet)
      ≡ ok q
length_matches packet len q e h = rw (e, h, ==_refl len) refl

module _ (s : Session) (ps : List Payload) (exchange msg_id : ℕ) (is_response : Bool)
    (iv inner plain cipher : Bytes) (w : Works s) where
  abbrev total : ℕ
  total = 28 + 4 + length iv + (length plain + overhead s) + icv_size s

  abbrev hdr : IkeHeader
  hdr = sealed_header s exchange msg_id is_response total

  abbrev n : ℕ
  n = 4 + length iv + length cipher + icv_size s

  abbrev raw : ℕ → Bytes
  raw k =
      encode_header hdr
      ++ (encode_payload_header (generic_header (first_type ps) false k) ++ (iv ++ cipher))

  -- The message, in the order in which it is put together.
  appended : raw n ≡ covered_bytes hdr (first_type ps) n iv cipher
  unfolding front_bytes
  appended = sym (
      append_assoc (front_bytes hdr (first_type ps) n) iv cipher
      ∙ append_assoc (encode_header hdr)
          (encode_payload_header (generic_header (first_type ps) false n)) (iv ++ cipher))

  -- The steps of the sealing succeed.
  sealing :
      encode_chain ps ≡ ok inner
      → pad s inner ≡ ok (plain, length plain + overhead s)
      → s.enc_alg.encrypt plain s.keys.sk_ei iv (encode_header hdr) ≡ some cipher
      → length cipher ≡ length plain + overhead s
      → n < 2 ^ 16
      → encrypt_and_wrap_with_msg_id s ps exchange msg_id is_response (some iv)
        ≡ ok (sealed s (covered_bytes hdr (first_type ps) n iv cipher))
  unfolding encrypt_and_wrap_with_msg_id
  sealing chain padding enc size lt =
      let body = covered_bytes hdr (first_type ps) n iv cipher in
      let small : n % 2 ^ 16 ≡ n = omega arith in
      let whole : length (sealed s body) % 2 ^ 32 ≡ total % 2 ^ 32 =
        ap (λ k. k % 2 ^ 32) (omega (arith, length-sealed s hdr (first_type ps) n iv cipher w)) in
      let check : (length cipher == length plain + overhead s) ≡ true =
        rw size (==_refl (length plain + overhead s)) in
      rw (chain, padding, enc, check)
        (length_matches (sealed s (raw (n % 2 ^ 16))) (total % 2 ^ 32) (sealed s body)
          (ap (λ k. sealed s (raw k)) small ∙ ap (sealed s) appended) whole)

overhead-le : (s : Session) → overhead s ≤ 16
overhead-le s = ground arith

-- What a session seals, the other end opens. For a session whose algorithms keep their laws, an IV of
-- the size that the cipher wants, SPIs and a message ID that fit their fields, and payloads that fit
-- theirs and leave room for the padding and the tag, encryptAndWrapWithMsgID gives a message without an
-- error; and decryptAndParse at the other end, a session with the same algorithms that opens with
-- the keys with which this one seals, gives the message ID and the payloads as they were encoded, and
-- takes over the SPI.
pub decrypt_and_parse-encrypt_and_wrap :
    (s other : Session) (ps : List Payload) (exchange msg_id : ℕ) (is_response : Bool) (iv : Bytes)
    → Works s
    → (s.spi_i < 2 ^ 64) × (s.spi_r < 2 ^ 64) × (msg_id < 2 ^ 32)
    → length iv ≡ s.enc_alg.iv_size
    → All FitsPayload ps
    → ((b : Bytes) → encode_chain ps ≡ ok b → 276 + length iv + length b + icv_size s < 2 ^ 16)
    → (packet : Bytes) × (encrypt_and_wrap_with_msg_id s ps exchange msg_id is_response (some iv)
        ≡ ok packet)
      × (decrypt_and_parse (other_end s other) packet
          ≡ (record (other_end s other) { spi_r = s.spi_r }, ok (msg_id, map settle ps)))
decrypt_and_parse-encrypt_and_wrap s other ps exchange msg_id is_response iv w (hi, hr, hm) size f
      room =
    let (inner, chain, parsed) = parse_payloads-encode_chain ps f in
    let (plain, padding, longer, whole, back) = unpad-pad s inner w.block_size.0 w.block_size.1 in
    let total' : ℕ = 28 + 4 + length iv + (length plain + overhead s) + icv_size s in
    let h : IkeHeader = sealed_header s exchange msg_id is_response total' in
    let (cipher, enc, len, dec) = w.encrypts.encrypts plain iv (encode_header h) size whole in
    let k : ℕ = 4 + length iv + length cipher + icv_size s in
    let lt : k < 2 ^ 16 = omega (arith, len, longer, room inner chain, overhead-le s) in
    let packet : Bytes = sealed s (covered_bytes h (first_type ps) k iv cipher) in
    (
      packet,
      sealing s ps exchange msg_id is_response iv inner plain cipher w chain padding enc len lt,
      decrypt_and_parse_opens (other_end s other) packet h (map settle ps)
          (decode_header-sealed s h (first_type ps) k iv cipher
            (record { spi_i = hi; spi_r = hr; message_id = hm; length = omega arith }))
          refl
          (open_sk-sealed s (record other { spi_r = s.spi_r }) h (first_type ps) k iv cipher plain
            inner (map settle ps) w refl lt size dec back parsed),
    )
