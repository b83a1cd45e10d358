-- ===== src/Swu/Message/Opening.antt =====
-- msg_handler.go: how the other end opens a sealed message.
use swu_go.Prelude.{
  ℕ, ◌+◌, ◌-◌, ◌^◌, ◌≤◌, ◌<◌, ◌≡◌, refl, sym, ap, ◌∙◌, false, some, Option-cases, inl, inr, List,
  [], ◌++◌, append_assoc, append-nil, ok, ltb, ltb-false, shorter, shorter-false, length,
  length-append, take, drop, slice_at, take-append_eq, drop-append_eq, take_all, arith,
}
use swu_go.Prelude.Bytes.{Bytes}
use swu_go.Ikev2.Types.{sk_type}
use swu_go.Ikev2.Header.{
  IkeHeader, FitsHeader, PayloadHeader, encode_header, decode_header, encode_payload_header,
  decode_payload_header, generic_header, decode_header-encode_header, decode_payload_header-encode,
}
use swu_go.Ikev2.Payload.{Payload}
use swu_go.Crypto.{EncrypterLaws, IntegrityAlgorithm, IntegrityLaws}
use swu_go.Swu.Error.{SwuError, sk_no_icv}
use swu_go.Swu.Session.{Session, integrity, icv_size}
use swu_go.Swu.Message.{
  unpad, tag, strip_tag, open_sk, parse_payloads, dispatch, decrypt_decoded, decrypt_and_parse,
}

-- The other end of `s`: any session that has the same algorithms, and opens with the keys with which
-- `s` seals.
abbrev pub other_end : Session → Session → Session
other_end s other = record other {
  enc_alg = s.enc_alg;
  integ_alg = s.integ_alg;
  ike_is_aead = s.ike_is_aead;
  keys = record other.keys { sk_er = s.keys.sk_ei; sk_ar = s.keys.sk_ai };
}

-- The laws of the algorithms of a session.
pub record Works (s : Session) : Type 0 where
  pub encrypts : EncrypterLaws s.enc_alg s.keys.sk_ei s.ike_is_aead
  pub integrity_laws : (a : IntegrityAlgorithm) → integrity s ≡ some a → IntegrityLaws a
  pub block_size : (0 < s.enc_alg.block_size) × (s.enc_alg.block_size ≤ 256)

pub length-tag : (s : Session) (packet : Bytes) → Works s → length (tag s packet) ≡ icv_size s
length-tag s packet w = elim (Option-cases (integrity s)) [
  | inl e ↦ rw (e, tag, icv_size) refl
  | inr (a, e) ↦ rw (e, tag, icv_size) ((w.integrity_laws a e).length-compute s.keys.sk_ai packet)
]

-- The tag is there and verifies, and what is left is the ciphertext.
pub strip_tag-tag :
    (s other : Session) (front cipher : Bytes) (covered : ℕ) (e : SwuError)
    → Works s
    → covered ≡ length front
    → strip_tag
        (other_end s other)
        ((front ++ cipher) ++ tag s (front ++ cipher))
        covered
        e
        (cipher ++ tag s (front ++ cipher))
      ≡ ok cipher
unfolding strip_tag
strip_tag-tag s other front cipher covered x w h = elim (Option-cases (integrity s)) [
  | inl e ↦ rw (e, strip_tag) (rw (e, tag) (ap ok (append-nil cipher)))
  | inr (a, e) ↦
      let body = front ++ cipher in
      let mac = a.compute s.keys.sk_ai body in
      let size : length mac ≡ a.output_size =
        (w.integrity_laws a e).length-compute s.keys.sk_ai body in
      let split : length (cipher ++ mac) - a.output_size ≡ length cipher =
        omega (arith, length-append cipher mac) in
      rw (e, strip_tag)
        (rw (e, tag)
          (rw
            (
              shorter-false (cipher ++ mac) a.output_size (omega (arith, length-append cipher mac)),
              take-append_eq (length (cipher ++ mac) - a.output_size) cipher mac split,
              drop-append_eq (length (cipher ++ mac) - a.output_size) cipher mac split,
              take-append_eq (covered + length cipher) body mac
                  (omega (arith, length-append front cipher)),
              (w.integrity_laws a e).verify-compute s.keys.sk_ai body,
            )
            refl))
]

-- An SK message that passes its tests.
pub open_sk_passes :
    (s : Session) (packet iv text cipher plain inner : Bytes) (h : PayloadHeader)
    (ps : List Payload)
    → shorter packet 32 ≡ false
    → decode_payload_header (slice_at 28 4 packet) ≡ ok h
    → shorter packet (28 + h.payload_length) ≡ false
    → ltb h.payload_length 4 ≡ false
    → slice_at 32 (h.payload_length - 4) packet ≡ iv ++ text
    → length iv ≡ s.enc_alg.iv_size
    → strip_tag s packet (32 + s.enc_alg.iv_size) sk_no_icv text ≡ ok cipher
    → s.enc_alg.decrypt cipher s.keys.sk_er iv (take 28 packet) ≡ some plain
    → unpad s plain ≡ ok inner
    → parse_payloads inner h.next_payload ≡ ok ps
    → open_sk s packet ≡ ok ps
unfolding open_sk
open_sk_passes s packet iv text cipher plain inner h ps h1 h2 h3 h4 h5 h6 h7 h8 h9 h10 =
    rw
      (
        h1,
        h2,
        h3,
        h4,
        h5,
        shorter-false (iv ++ text) s.enc_alg.iv_size (omega (arith, length-append iv text)),
        take-append_eq s.enc_alg.iv_size iv text (sym h6),
        drop-append_eq s.enc_alg.iv_size iv text (sym h6),
        h7,
        h8,
        h9,
        h10,
      )
      refl

-- What the front of a message is: a header, a generic header and the rest.
unfoldable pub front_bytes : IkeHeader → ℕ → ℕ → Bytes
front_bytes hdr first n = encode_header hdr ++ encode_payload_header (generic_header first false n)

module _ (hdr : IkeHeader) (first n : ℕ) (rest : Bytes) where
  pub length-front : length (front_bytes hdr first n ++ rest) ≡ 32 + length rest
  unfolding front_bytes encode_header encode_payload_header
  length-front = omega arith

  pub front-rest : drop 32 (front_bytes hdr first n ++ rest) ≡ rest
  unfolding front_bytes encode_header encode_payload_header
  front-rest = refl

  pub front-header : take 28 (front_bytes hdr first n ++ rest) ≡ encode_header hdr
  unfolding front_bytes encode_header encode_payload_header
  front-header = refl

  pub front-generic :
      n < 2 ^ 16
      → decode_payload_header (slice_at 28 4 (front_bytes hdr first n ++ rest))
        ≡ ok (generic_header first false n)
  unfolding front_bytes encode_header encode_payload_header
  front-generic h = decode_payload_header-encode first false n [] h

  pub decode-front : FitsHeader hdr → decode_header (front_bytes hdr first n ++ rest) ≡ ok hdr
  unfolding front_bytes
  decode-front f =
      ap decode_header (
        append_assoc (encode_header hdr) (encode_payload_header (generic_header first false n))
          rest)
      ∙ decode_header-encode_header hdr
          (encode_payload_header (generic_header first false n) ++ rest) f

pub unpad-other_end :
    (s other : Session) (plain : Bytes) → unpad (other_end s other) plain ≡ unpad s plain
unfolding unpad
unpad-other_end s other plain = refl

-- The message with the ciphertext `cipher`, without and with its tag.
abbrev pub covered_bytes : IkeHeader → ℕ → ℕ → Bytes → Bytes → Bytes
covered_bytes hdr first n iv cipher = (front_bytes hdr first n ++ iv) ++ cipher

abbrev pub sealed : Session → Bytes → Bytes
sealed s body = body ++ tag s body

sealed_parts :
    (front iv cipher t : Bytes) → ((front ++ iv) ++ cipher) ++ t ≡ front ++ (iv ++ (cipher ++ t))
sealed_parts front iv cipher t =
    append_assoc (front ++ iv) cipher t ∙ append_assoc front iv (cipher ++ t)

pub length-sealed :
    (s : Session) (hdr : IkeHeader) (first n : ℕ) (iv cipher : Bytes)
    → Works s
    → length (sealed s (covered_bytes hdr first n iv cipher))
      ≡ 32 + length iv + length cipher + icv_size s
length-sealed s hdr first n iv cipher w =
    let front = front_bytes hdr first n in
    let body = covered_bytes hdr first n iv cipher in
    omega (
      arith,
      length-append body (tag s body),
      length-append (front ++ iv) cipher,
      length-append front iv,
      length-front hdr first n [],
      length-append front [],
      length-tag s body w,
    )

-- A sealed message is opened, if the length field of its generic header is right.
pub open_sk-sealed :
    (s other : Session) (hdr : IkeHeader) (first n : ℕ) (iv cipher plain inner : Bytes)
    (ps : List Payload)
    → Works s
    → n ≡ 4 + length iv + length cipher + icv_size s
    → n < 2 ^ 16
    → length iv ≡ s.enc_alg.iv_size
    → s.enc_alg.decrypt cipher s.keys.sk_ei iv (encode_header hdr) ≡ some plain
    → unpad s plain ≡ ok inner
    → parse_payloads inner first ≡ ok ps
    → open_sk (other_end s other) (sealed s (covered_bytes hdr first n iv cipher)) ≡ ok ps
open_sk-sealed s other hdr first n iv cipher plain inner ps w e lt size d u back =
    let body = covered_bytes hdr first n iv cipher in
    let packet = sealed s body in
    let rest = iv ++ (cipher ++ tag s body) in
    let parts : packet ≡ front_bytes hdr first n ++ rest =
      sealed_parts (front_bytes hdr first n) iv cipher (tag s body) in
    let total : length packet ≡ 28 + n = omega (arith, length-sealed s hdr first n iv cipher w) in
    let rest_size : n - 4 ≡ length rest = omega (
      arith,
      length-append iv (cipher ++ tag s body),
      length-append cipher (tag s body),
      length-tag s body w,
    ) in
    open_sk_passes (other_end s other) packet iv (cipher ++ tag s body) cipher plain inner
      (generic_header first false n) ps (shorter-false packet 32 (omega arith))
      (ap (λ p. decode_payload_header (slice_at 28 4 p)) parts ∙ front-generic hdr first n rest lt)
      (shorter-false packet (28 + n) (omega arith)) (ltb-false n 4 (omega arith))
      (ap (λ p. take (n - 4) (drop 32 p)) parts
        ∙ (ap (take (n - 4)) (front-rest hdr first n rest) ∙ take_all (n - 4) rest rest_size))
      size
      (strip_tag-tag s other (front_bytes hdr first n ++ iv) cipher (32 + s.enc_alg.iv_size)
        sk_no_icv w
        (omega (arith, length-append (front_bytes hdr first n) iv, length-front hdr first n iv)))
      (ap (λ a. s.enc_alg.decrypt cipher s.keys.sk_ei iv a)
          (ap (take 28) parts ∙ front-header hdr first n rest)
        ∙ d)
      (unpad-other_end s other plain ∙ u) back

pub decode_header-sealed :
    (s : Session) (hdr : IkeHeader) (first n : ℕ) (iv cipher : Bytes)
    → FitsHeader hdr
    → decode_header (sealed s (covered_bytes hdr first n iv cipher)) ≡ ok hdr
decode_header-sealed s hdr first n iv cipher f =
    let t = tag s (covered_bytes hdr first n iv cipher) in
    ap decode_header (sealed_parts (front_bytes hdr first n) iv cipher t)
    ∙ decode-front hdr first n (iv ++ (cipher ++ t)) f

-- A message with an SK payload that is opened.
pub decrypt_and_parse_opens :
    (s : Session) (packet : Bytes) (h : IkeHeader) (ps : List Payload)
    → decode_header packet ≡ ok h
    → h.next_payload ≡ sk_type
    → open_sk (record s { spi_r = h.spi_r }) packet ≡ ok ps
    → decrypt_and_parse s packet ≡ (record s { spi_r = h.spi_r }, ok (h.message_id, ps))
unfolding decrypt_and_parse decrypt_decoded dispatch
decrypt_and_parse_opens s packet h ps d e o = rw d (rw e (rw o refl))
