-- ===== src/Swu/Sending/RoundTrip.antt =====
-- fragment.go: a fragment that buildSKFPacket seals is opened by decryptSKF at the other end.
use swu_go.Prelude.{
  ℕ, ◌+◌, ◌%◌, ◌^◌, ◌<◌, ◌≡◌, refl, sym, ap, ◌∙◌, false, Bool-cases, inl, inr, some, ◌++◌,
  append_assoc, Result, ok, ◌==◌, ==_false, if◌then◌else◌, shorter, shorter-false, length,
  length-append, take, drop, take-append_eq, drop-append_eq, arith,
}
use swu_go.Prelude.Bytes.{Bytes, byte_at, be16, u16_at, u16-be16}
use swu_go.Ikev2.Types.{encrypted_fragment_type, flag_initiator}
use swu_go.Ikev2.Header.{IkeHeader, encode_header, encode_payload_header, generic_header}
use swu_go.Swu.Error.{SwuError, skf_no_icv}
use swu_go.Swu.Session.{Session, icv_size}
use swu_go.Swu.Message.{pad, unpad, tag, strip_tag, decrypt_skf}
use swu_go.Swu.Message.Padding.{overhead, unpad-pad}
use swu_go.Swu.Message.Opening.{
  unpad-other_end, other_end, Works, front_bytes, sealed, strip_tag-tag, length-front,
}
use swu_go.Swu.Sending.{pad_skf, build_skf_packet}

-- An SKF message that passes its tests.
decrypt_skf_passes :
    (s : Session) (packet iv text cipher plain inner : Bytes) (num total : ℕ)
    → shorter packet 32 ≡ false
    → shorter packet 36 ≡ false
    → shorter packet (36 + s.enc_alg.iv_size) ≡ false
    → drop 36 packet ≡ iv ++ text
    → s.enc_alg.iv_size ≡ length iv
    → strip_tag s packet (36 + s.enc_alg.iv_size) skf_no_icv text ≡ ok cipher
    → s.enc_alg.decrypt cipher s.keys.sk_er iv (take 28 packet) ≡ some plain
    → unpad s plain ≡ ok inner
    → u16_at 32 packet ≡ num
    → u16_at 34 packet ≡ total
    → decrypt_skf s packet ≡ ok (record { text = inner; number = num; total = total })
unfolding decrypt_skf
decrypt_skf_passes s packet iv text cipher plain inner num total h1 h2 h3 h4 h5 h6 h7 h8 h9 h10 =
    rw
      (
        h1,
        h2,
        h3,
        h4,
        take-append_eq s.enc_alg.iv_size iv text h5,
        drop-append_eq s.enc_alg.iv_size iv text h5,
        h6,
        h7,
        h8,
      )
      (λ i. ok (record { text = inner; number = h9 i; total = h10 i }))

-- The two ways to pad agree.
pad-pad_skf :
    (s : Session) (text : Bytes) → 0 < s.enc_alg.block_size → pad s text ≡ ok (pad_skf s text)
unfolding pad pad_skf
pad-pad_skf s text h = elim (Bool-cases s.ike_is_aead) [
  | inl e ↦ rw e refl
  | inr e ↦ rw (e, ==_false s.enc_alg.block_size 0 (λ z. absurd (omega arith))) refl
]

-- The padded text, as the theorem on `pad` describes it.
pad_skf_eq :
    (s : Session) (text plain : Bytes) (k : ℕ)
    → 0 < s.enc_alg.block_size
    → pad s text ≡ ok (plain, k)
    → pad_skf s text ≡ (plain, k)
pad_skf_eq s text plain k h e =
    same_pair (pad_skf s text) (plain, k) (sym (pad-pad_skf s text h) ∙ e)
  where
    same_pair : (x y : Bytes × ℕ) → ◌≡◌ {A = Result SwuError (Bytes × ℕ)} (ok x) (ok y) → x ≡ y
    same_pair x y e = cc

-- The fields that stand behind the generic header.
module _ (hdr : IkeHeader) (next n num total : ℕ) (rest : Bytes) where
  abbrev skf_bytes : Bytes
  skf_bytes = front_bytes hdr next n ++ ((be16 num ++ be16 total) ++ rest)

  length-skf_bytes : length skf_bytes ≡ 36 + length rest
  unfolding front_bytes encode_header encode_payload_header
  length-skf_bytes = omega arith

  skf-rest : drop 36 skf_bytes ≡ rest
  unfolding front_bytes encode_header encode_payload_header
  skf-rest = refl

  skf-header : take 28 skf_bytes ≡ encode_header hdr
  unfolding front_bytes encode_header encode_payload_header
  skf-header = refl

  skf-type : byte_at 28 skf_bytes ≡ next
  unfolding front_bytes encode_header encode_payload_header
  skf-type = refl

  skf-number : num < 2 ^ 16 → u16_at 32 skf_bytes ≡ num
  unfolding front_bytes encode_header encode_payload_header
  skf-number h = u16-be16 num h

  skf-total : total < 2 ^ 16 → u16_at 34 skf_bytes ≡ total
  unfolding front_bytes encode_header encode_payload_header
  skf-total h = u16-be16 total h

-- The message with the ciphertext, without its tag.
abbrev skf_body : IkeHeader → ℕ → ℕ → ℕ → ℕ → Bytes → Bytes → Bytes
skf_body hdr next n num total iv cipher =
    (front_bytes hdr next n ++ ((be16 num ++ be16 total) ++ iv)) ++ cipher

skf_parts :
    (front frag iv cipher t : Bytes)
    → ((front ++ (frag ++ iv)) ++ cipher) ++ t ≡ front ++ (frag ++ (iv ++ (cipher ++ t)))
skf_parts front frag iv cipher t =
    append_assoc (front ++ (frag ++ iv)) cipher t
    ∙ (append_assoc front (frag ++ iv) (cipher ++ t)
        ∙ ap (λ r. front ++ r) (append_assoc frag iv (cipher ++ t)))

decrypt_skf-sealed :
    (s other : Session) (hdr : IkeHeader) (next n num total : ℕ) (iv cipher plain inner : Bytes)
    → Works s
    → num < 2 ^ 16
    → total < 2 ^ 16
    → length iv ≡ s.enc_alg.iv_size
    → s.enc_alg.decrypt cipher s.keys.sk_ei iv (encode_header hdr) ≡ some plain
    → unpad s plain ≡ ok inner
    → (decrypt_skf (other_end s other) (sealed s (skf_body hdr next n num total iv cipher))
        ≡ ok (record { text = inner; number = num; total = total }))
      × (byte_at 28 (sealed s (skf_body hdr next n num total iv cipher)) ≡ next)
decrypt_skf-sealed s other hdr next n num total iv cipher plain inner w hn ht size d u =
    let frag : Bytes = be16 num ++ be16 total in
    let body = skf_body hdr next n num total iv cipher in
    let t = tag s body in
    let packet = sealed s body in
    let rest = iv ++ (cipher ++ t) in
    let parts : packet ≡ skf_bytes hdr next n num total rest =
      skf_parts (front_bytes hdr next n) frag iv cipher t in
    let whole : length packet ≡ 36 + length rest =
      ap length parts ∙ length-skf_bytes hdr next n num total rest in
    let room : length rest ≡ length iv + length (cipher ++ t) = length-append iv (cipher ++ t) in
    (
      decrypt_skf_passes (other_end s other) packet iv (cipher ++ t) cipher plain inner num total
          (shorter-false packet 32 (omega arith)) (shorter-false packet 36 (omega arith))
          (shorter-false packet (36 + s.enc_alg.iv_size) (omega arith))
          (ap (drop 36) parts ∙ skf-rest hdr next n num total rest) (sym size)
          (strip_tag-tag s other (front_bytes hdr next n ++ (frag ++ iv)) cipher
            (36 + s.enc_alg.iv_size) skf_no_icv w
            (omega (
              arith,
              length-append (front_bytes hdr next n) (frag ++ iv),
              length-front hdr next n (frag ++ iv),
            )))
          (ap (λ a. s.enc_alg.decrypt cipher s.keys.sk_ei iv a)
              (ap (take 28) parts ∙ skf-header hdr next n num total rest)
            ∙ d)
          (unpad-other_end s other plain ∙ u)
          (ap (u16_at 32) parts ∙ skf-number hdr next n num total rest hn)
          (ap (u16_at 34) parts ∙ skf-total hdr next n num total rest ht),
      ap (byte_at 28) parts ∙ skf-type hdr next n num total rest,
    )

-- What buildSKFPacket seals, decryptSKF at the other end opens. For a session whose algorithms keep
-- their laws, an IV of the size that the cipher wants, and a fragment number and total of 16 bits, the
-- packet is built without an error; the other end gets the plaintext, the number and the total back; and
-- the generic header of the packet carries the type of the first payload on fragment 1, and 0 on any other.
pub decrypt_skf-build_skf_packet :
    (s other : Session) (text : Bytes) (num total msg_id exchange first : ℕ) (iv : Bytes)
    → Works s
    → num < 2 ^ 16
    → total < 2 ^ 16
    → length iv ≡ s.enc_alg.iv_size
    → (packet : Bytes) × (build_skf_packet s text num total msg_id exchange first (some iv)
        ≡ ok packet)
      × (decrypt_skf (other_end s other) packet
          ≡ ok (record { text = text; number = num; total = total }))
      × (byte_at 28 packet ≡ (if num == 1 then first else 0))
unfolding build_skf_packet front_bytes
decrypt_skf-build_skf_packet s other text num total msg_id exchange first iv w hn ht size =
    let (plain, padding, longer, whole, back) = unpad-pad s text w.block_size.0 w.block_size.1 in
    let n : ℕ = (4 + 4 + length iv + (length plain + overhead s) + icv_size s) % 2 ^ 16 in
    let h : IkeHeader = record {
      spi_i = s.spi_i;
      spi_r = s.spi_r;
      next_payload = encrypted_fragment_type;
      version = 0x20;
      exchange_type = exchange;
      flags = flag_initiator;
      message_id = msg_id;
      length = (28 + n) % 2 ^ 32;
    } in
    let (cipher, enc, len, dec) = w.encrypts.encrypts plain iv (encode_header h) size whole in
    let next : ℕ = if num == 1 then first else 0 in
    let (opened, type_of) =
      decrypt_skf-sealed s other h next n num total iv cipher plain text w hn ht size dec back in
    let gen : Bytes = encode_payload_header (generic_header next false n) in
    let frag : Bytes = be16 num ++ be16 total in
    let appended : encode_header h ++ (gen ++ (frag ++ (iv ++ cipher)))
        ≡ skf_body h next n num total iv cipher =
      sym (
        append_assoc (front_bytes h next n) (frag ++ iv) cipher
        ∙ (append_assoc (encode_header h) gen ((frag ++ iv) ++ cipher)
            ∙ ap (λ r. encode_header h ++ (gen ++ r)) (append_assoc frag iv cipher))) in
    (
      sealed s (skf_body h next n num total iv cipher),
      rw (pad_skf_eq s text plain (length plain + overhead s) w.block_size.0 padding)
          (rw enc (ap (λ b. ok (sealed s b)) appended)),
      opened,
      type_of,
    )
