-- ===== src/Ipsec/Esp/RoundTrip.antt =====
-- esp.go: what Encapsulate seals, Decapsulate opens.
use swu_go.Prelude.{
  ℕ, zero, suc, ◌+◌, ◌-◌, ◌%◌, ◌^◌, ◌≤◌, ◌<◌, ◌≡◌, refl, sym, ap, ◌∙◌, Bool, false, not, ◌&&◌,
  Option-cases, inl, inr, some, [], ◌∷◌, ◌++◌, append_assoc, append-nil, ok, ◌==◌, ==_false,
  ==_refl, shorter, shorter-false, length, length-append, take, drop, slice_at, take-append_eq,
  drop-append_eq, arith,
}
use swu_go.Prelude.Bytes.{Bytes, byte_at, be32, u32_at, u32-be32}
use swu_go.Crypto.{EncrypterLaws, IntegrityAlgorithm, IntegrityLaws}
use swu_go.Swu.Message.{pad_len}
use swu_go.Swu.Message.Padding.{pad_len-lt, pad_len_whole, byte_past}
use swu_go.Ipsec.Esp.{
  SecurityAssociation, next_header, esp_pad_len, padding_from, data_to_encrypt, esp_integrity, icv,
  encapsulate_numbered, encapsulate, strip_icv, strip_padding, decapsulate,
}

-- The laws of the algorithms of an association.
pub record EspWorks (sa : SecurityAssociation) : Type 0 where
  pub encrypts : EncrypterLaws sa.encryption_alg sa.encryption_key sa.is_aead
  pub integrity_laws : (a : IntegrityAlgorithm) → esp_integrity sa ≡ some a → IntegrityLaws a
  pub block_size : (0 < sa.encryption_alg.block_size) × (sa.encryption_alg.block_size ≤ 256)

esp_pad_len-pad_len : (b n : ℕ) → esp_pad_len b n ≡ pad_len b (n + 1)
esp_pad_len-pad_len b n = rw two (ground arith)
  where
    two : n + 2 ≡ n + 1 + 1
    two = omega arith

length-padding_from : (i n : ℕ) → length (padding_from i n) ≡ n
length-padding_from i zero = refl
length-padding_from i (suc n) = ap suc (length-padding_from (suc i) n)

length-data_to_encrypt :
    (n : ℕ) (text : Bytes) → length (data_to_encrypt n text) ≡ length text + (n + 2)
length-data_to_encrypt n text =
    let trailer : Bytes = (n % 256) ∷ next_header text ∷ [] in
    omega (
      arith,
      length-append text (padding_from 0 n ++ trailer),
      length-append (padding_from 0 n) trailer,
      length-padding_from 0 n,
    )

strip_padding-data_to_encrypt :
    (n : ℕ) (text : Bytes) → n < 256 → strip_padding (data_to_encrypt n text) ≡ ok text
unfolding strip_padding
strip_padding-data_to_encrypt n text h =
    let plain : Bytes = data_to_encrypt n text in
    let size : length plain ≡ length text + (n + 2) = length-data_to_encrypt n text in
    let byte : byte_at (length plain - 2) plain ≡ n =
      ap (byte_at (length plain - 2))
        (sym (append_assoc text (padding_from 0 n) ((n % 256) ∷ next_header text ∷ [])))
      ∙ (byte_past (text ++ padding_from 0 n) (n % 256) (next_header text ∷ []) (length plain - 2)
            (omega (arith, length-append text (padding_from 0 n), length-padding_from 0 n))
          ∙ omega arith) in
    rw (shorter-false plain 2 (omega arith), byte, shorter-false plain (2 + n) (omega arith))
      (ap ok (take-append_eq (length plain - 2 - n) text _ (omega arith)))

-- The ICV is there and verifies, and what is left is the ciphertext.
strip_icv-icv :
    (sa : SecurityAssociation) (front cipher : Bytes)
    → EspWorks sa
    → 8 + sa.encryption_alg.iv_size ≡ length front
    → strip_icv sa ((front ++ cipher) ++ icv sa (front ++ cipher)) ≡ ok cipher
unfolding strip_icv
strip_icv-icv sa front cipher w h = elim (Option-cases (esp_integrity sa)) [
  | inl e ↦
      rw (e, strip_icv)
        (rw (e, icv)
          (rw (append-nil (front ++ cipher))
            (ap ok (drop-append_eq (8 + sa.encryption_alg.iv_size) front cipher h))))
  | inr (a, e) ↦
      let body = front ++ cipher in
      let mac = a.compute sa.integrity_key body in
      let size : length mac ≡ a.output_size =
        (w.integrity_laws a e).length-compute sa.integrity_key body in
      let split : length (body ++ mac) - a.output_size ≡ length body =
        omega (arith, length-append body mac) in
      rw (e, strip_icv)
        (rw (e, icv)
          (rw
            (
              shorter-false (body ++ mac) (8 + sa.encryption_alg.iv_size + a.output_size)
                  (omega (arith, length-append body mac, length-append front cipher)),
              take-append_eq (length (body ++ mac) - a.output_size) body mac split,
              drop-append_eq (length (body ++ mac) - a.output_size) body mac split,
              (w.integrity_laws a e).verify-compute sa.integrity_key body,
            )
            (ap ok (drop-append_eq (8 + sa.encryption_alg.iv_size) front cipher h))))
]

-- A packet that passes the tests.
decapsulate_passes :
    (sa : SecurityAssociation) (packet iv cipher plain text : Bytes)
    → shorter packet 8 ≡ false
    → u32_at 0 packet ≡ sa.spi
    → shorter packet (8 + sa.encryption_alg.iv_size) ≡ false
    → strip_icv sa packet ≡ ok cipher
    → slice_at 8 sa.encryption_alg.iv_size packet ≡ iv
    → sa.encryption_alg.decrypt cipher sa.encryption_key iv (take 8 packet) ≡ some plain
    → strip_padding plain ≡ ok text
    → decapsulate packet sa ≡ ok text
unfolding decapsulate
decapsulate_passes sa packet iv cipher plain text h1 h2 h3 h4 h5 h6 h7 =
    rw (h1, h2, ==_refl sa.spi, and_false (not (sa.spi == 0)), h3, h4, h5, h6, h7) refl
  where
    and_false : (b : Bool) → (b && false) ≡ false
    and_false b = ground arith

-- The two words in front.
module _ (spi seq : ℕ) (rest : Bytes) where
  abbrev esp_bytes : Bytes
  esp_bytes = (be32 spi ++ be32 seq) ++ rest

  esp-spi : spi < 2 ^ 32 → u32_at 0 esp_bytes ≡ spi
  esp-spi h = u32-be32 spi h

  esp-number : seq < 2 ^ 32 → u32_at 4 esp_bytes ≡ seq
  esp-number h = u32-be32 seq h

  esp-front : take 8 esp_bytes ≡ be32 spi ++ be32 seq
  esp-front = refl

  esp-rest : drop 8 esp_bytes ≡ rest
  esp-rest = refl

-- What Encapsulate seals, Decapsulate opens. For an association whose algorithms keep their laws, with an
-- SPI of 32 bits, and an IV of the size that the cipher wants, the packet is built without an error. It
-- carries the next sequence number, modulo 2^32, and an association with the same SPI, algorithms and
-- keys, whatever its own sequence number is, gets the plaintext back, and so as often as it gets the packet.
pub decapsulate-encapsulate :
    (sa : SecurityAssociation) (text iv : Bytes) (k : ℕ)
    → EspWorks sa
    → sa.spi < 2 ^ 32
    → length iv ≡ sa.encryption_alg.iv_size
    → (packet : Bytes) × ((encapsulate text sa (some iv)).1 ≡ ok packet)
      × (u32_at 4 packet ≡ (sa.sequence_number + 1) % 2 ^ 32)
      × (decapsulate packet (record sa { sequence_number = k }) ≡ ok text)
unfolding encapsulate encapsulate_numbered strip_icv
decapsulate-encapsulate sa text iv k w hs size =
    let b = sa.encryption_alg.block_size in
    let n : ℕ = esp_pad_len b (length text) in
    let same : n ≡ pad_len b (length text + 1) = esp_pad_len-pad_len b (length text) in
    let small : n < 256 =
      omega (arith, pad_len-lt b (length text + 1) w.block_size.0, w.block_size.1) in
    let plain : Bytes = data_to_encrypt n text in
    let aligned : length plain % b ≡ 0 =
      ap (λ j. j % b) (omega (arith, length-data_to_encrypt n text))
      ∙ pad_len_whole b (length text + 1) w.block_size.0 in
    let seq : ℕ = (sa.sequence_number + 1) % 2 ^ 64 % 2 ^ 32 in
    let header : Bytes = be32 sa.spi ++ be32 seq in
    let (cipher, enc, len, dec) = w.encrypts.encrypts plain iv header size (λ _. aligned) in
    let body : Bytes = (header ++ iv) ++ cipher in
    let packet : Bytes = body ++ icv sa body in
    let rest : Bytes = iv ++ (cipher ++ icv sa body) in
    let parts : packet ≡ esp_bytes sa.spi seq rest =
      append_assoc (header ++ iv) cipher (icv sa body)
      ∙ append_assoc header iv (cipher ++ icv sa body) in
    let whole : length packet ≡ 8 + length rest = ap length parts ∙ length-append header rest in
    let room : length rest ≡ length iv + length (cipher ++ icv sa body) =
      length-append iv (cipher ++ icv sa body) in
    (
      packet,
      rw (==_false b 0 (λ z. absurd (omega (arith, w.block_size.0))))
          (rw enc (ap (λ x. ok (x ++ icv sa x)) (sym (append_assoc header iv cipher)))),
      ap (u32_at 4) parts ∙ (esp-number sa.spi seq rest (omega arith) ∙ omega arith),
      decapsulate_passes (record sa { sequence_number = k }) packet iv cipher plain text
          (shorter-false packet 8 (omega arith)) (ap (u32_at 0) parts ∙ esp-spi sa.spi seq rest hs)
          (shorter-false packet (8 + sa.encryption_alg.iv_size) (omega arith))
          (strip_icv-icv sa (header ++ iv) cipher w (omega (arith, length-append header iv)))
          (ap (λ p. take sa.encryption_alg.iv_size (drop 8 p)) parts
            ∙ take-append_eq sa.encryption_alg.iv_size iv (cipher ++ icv sa body) (sym size))
          (ap (λ p. sa.encryption_alg.decrypt cipher sa.encryption_key iv (take 8 p)) parts ∙ dec)
          (strip_padding-data_to_encrypt n text small),
    )
