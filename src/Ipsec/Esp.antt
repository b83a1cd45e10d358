-- ===== src/Ipsec/Esp.antt =====
-- pkg/ipsec/esp.go and sa.go: ESP packets, and the security association that they belong to.
pub mod RoundTrip
mod Tests
use swu_go.Prelude.{
  ℕ, zero, suc, ◌+◌, ◌-◌, ◌/◌, ◌%◌, ◌^◌, Bool, true, false, ◌&&◌, not, Option, none, some, [], ◌∷◌,
  ◌++◌, Result, ok, err, panic, ◌>>=◌, ◌>>◌, fail_if, ◌==◌, if◌then◌else◌, shorter, length, take,
  drop, slice_at,
}
use swu_go.Prelude.Bytes.{Bytes, byte_at, be32, u32_at}
use swu_go.Crypto.{Encrypter, IntegrityAlgorithm}

pub data EspError : Type 0 where
  esp_no_randomness : EspError
  esp_encryption_failed : EspError
  esp_too_short : EspError
  esp_spi_mismatch : EspError
  esp_no_iv : EspError
  esp_no_icv : EspError
  esp_integrity_failed : EspError
  esp_decryption_failed : EspError
  esp_payload_too_short : EspError
  esp_padding_invalid : EspError

-- RemoteSPI, IntegritySalt, IntegrityAlg and ReplayWindow are not read by the code of this file.
pub record SecurityAssociation : Type 0 where
  pub spi : ℕ
  pub encryption_alg : Encrypter
  pub encryption_key : Bytes
  pub integrity_alg2 : Option IntegrityAlgorithm
  pub integrity_key : Bytes
  pub is_aead : Bool
  pub sequence_number : ℕ

unfoldable pub new_security_association : ℕ → Encrypter → Bytes → Bytes → SecurityAssociation
new_security_association spi enc enc_key integ_key = record {
  spi = spi;
  encryption_alg = enc;
  encryption_key = enc_key;
  integrity_alg2 = none;
  integrity_key = integ_key;
  is_aead = true;
  sequence_number = 0;
}

unfoldable pub new_security_association_cbc :
    ℕ → Encrypter → Bytes → IntegrityAlgorithm → Bytes → SecurityAssociation
new_security_association_cbc spi enc enc_key integ_alg integ_key = record {
  spi = spi;
  encryption_alg = enc;
  encryption_key = enc_key;
  integrity_alg2 = some integ_alg;
  integrity_key = integ_key;
  is_aead = false;
  sequence_number = 0;
}

-- An atomic increment of a uint64, and the new value as a uint32.
abbrev pub next_esp_number : SecurityAssociation → SecurityAssociation × ℕ
next_esp_number sa =
    let n = (sa.sequence_number + 1) % 2 ^ 64 in (record sa { sequence_number = n }, n % 2 ^ 32)

-- The version of the IP packet chooses the next header; `b >> 4` is `b / 16`.
abbrev pub next_header : Bytes → ℕ
next_header [] = 0
next_header (b ∷ bs) = if b / 16 == 4 then 4 else if b / 16 == 6 then 41 else 0

abbrev pub esp_pad_len : ℕ → ℕ → ℕ
esp_pad_len block_size len =
    let needed = len + 2 in
    if not (needed % block_size == 0) then block_size - needed % block_size else 0

-- The padding bytes i + 1, i + 2, …, as bytes.
abbrev pub padding_from : ℕ → ℕ → Bytes
padding_from i zero = []
padding_from i (suc n) = ((i + 1) % 256) ∷ padding_from (suc i) n

abbrev pub data_to_encrypt : ℕ → Bytes → Bytes
data_to_encrypt pad text = text ++ (padding_from 0 pad ++ ((pad % 256) ∷ next_header text ∷ []))

-- The algorithm of `if !sa.IsAEAD && sa.IntegrityAlg2 != nil`.
abbrev pub esp_integrity : SecurityAssociation → Option IntegrityAlgorithm
esp_integrity sa = if sa.is_aead then none else sa.integrity_alg2

abbrev pub icv : SecurityAssociation → Bytes → Bytes
icv sa body = elim (esp_integrity sa) [ none ↦ [] | some a ↦ a.compute sa.integrity_key body ]

abbrev esp_or_fail : {A : Type 0} → EspError → Option A → Result EspError A
esp_or_fail e none = err e
esp_or_fail e (some a) = ok a

-- Encapsulate behind the sequence number. A block size of 0 makes `%` panic.
pub encapsulate_numbered : Bytes → SecurityAssociation → ℕ → Option Bytes → Result EspError Bytes
encapsulate_numbered text sa seq random = do
  iv ← esp_or_fail esp_no_randomness random
  if sa.encryption_alg.block_size == 0 then panic else do
    let header = be32 sa.spi ++ be32 seq
    let padded = data_to_encrypt (esp_pad_len sa.encryption_alg.block_size (length text)) text
    cipher ←
        esp_or_fail esp_encryption_failed
          (sa.encryption_alg.encrypt padded sa.encryption_key iv header)
    let body = header ++ (iv ++ cipher)
    ok (body ++ icv sa body)

-- Encapsulate. `random` is what crypto.RandomBytes gives for the IV.
pub encapsulate :
    Bytes → SecurityAssociation → Option Bytes → SecurityAssociation × Result EspError Bytes
encapsulate text sa random =
    let (sa', seq) = next_esp_number sa in (sa', encapsulate_numbered text sa' seq random)

-- The ciphertext, behind the check of the ICV.
pub strip_icv : SecurityAssociation → Bytes → Result EspError Bytes
strip_icv sa packet =
    let front = 8 + sa.encryption_alg.iv_size in
    elim (esp_integrity sa) [
      | none ↦ ok (drop front packet)
      | some a ↦ do
        fail_if (shorter packet (front + a.output_size)) esp_no_icv
        let received = drop (length packet - a.output_size) packet
        let covered = take (length packet - a.output_size) packet
        fail_if (not (a.verify sa.integrity_key covered received)) esp_integrity_failed
        ok (drop front covered)
    ]

pub strip_padding : Bytes → Result EspError Bytes
strip_padding plain =
    if shorter plain 2
    then err esp_payload_too_short
    else (let n = byte_at (length plain - 2) plain in
        if shorter plain (2 + n)
        then err esp_padding_invalid
        else ok (take (length plain - 2 - n) plain))

-- Decapsulate. The sequence number is not looked at.
pub decapsulate : Bytes → SecurityAssociation → Result EspError Bytes
decapsulate packet sa =
    if shorter packet 8
    then err esp_too_short
    else if not (sa.spi == 0) && not (u32_at 0 packet == sa.spi)
    then err esp_spi_mismatch
    else if shorter packet (8 + sa.encryption_alg.iv_size)
    then err esp_no_iv
    else do
      cipher ← strip_icv sa packet
      plain ← esp_or_fail esp_decryption_failed (
          sa.encryption_alg.decrypt cipher sa.encryption_key
            (slice_at 8 sa.encryption_alg.iv_size packet) (take 8 packet))
      strip_padding plain
