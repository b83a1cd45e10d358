-- ===== src/Swu/Rekey/Suites.antt =====
-- state_rekey.go and state_auth.go: what an association has, by the numbers of its algorithms.
use swu_go.Prelude.{
  ℕ, ◌+◌, ◌/◌, ◌≡◌, refl, sym, ap, subst, ◌∙◌, Bool, true, false, ◌&&◌, Option, none, some, Result,
  ok, ◌>>=◌, leb, ◌==◌, if◌then◌else◌, arith,
}
use swu_go.Prelude.Bytes.{Bytes}
use swu_go.Crypto.{Encrypter, IntegrityAlgorithm}
use swu_go.Crypto.Choice.{
  Algorithms, get_encrypter_with_key_len, encrypter_of_size, get_integrity_algorithm,
  integrity_key_size,
}
use swu_go.Swu.Rekey.{
  RekeyError, unsupported_encryption, unsupported_integrity, Found, Suite, ChildSa, choose_suite,
  is_aead, or_error,
}

-- AES-GCM has the numbers 18 to 20.
abbrev pub is_gcm : ℕ → Bool
is_gcm id = leb 18 id && leb id 20

-- Without a stated length a key has 128 bits; an AES-GCM key has 4 bytes of salt behind it.
abbrev pub key_bytes : ℕ → ℕ
key_bytes bits = if bits == 0 then 16 else bits / 8

abbrev pub cipher_bytes : ℕ → ℕ → ℕ
cipher_bytes id bits = if is_gcm id then key_bytes bits + 4 else key_bytes bits

-- HMAC-SHA1 and HMAC-SHA2-256, -384 and -512; AES-GCM needs none.
abbrev pub mac_bytes : ℕ → ℕ → ℕ
mac_bytes id integ =
    if is_gcm id
    then 0
    else if integ == 2
    then 20
    else if integ == 12
    then 32
    else if integ == 13
    then 48
    else if integ == 14
    then 64
    else 0

abbrev pub cipher_of : Algorithms → ℕ → ℕ → Encrypter
cipher_of algs id bits =
    if is_gcm id then algs.aes_gcm (key_bytes bits) else algs.aes_cbc (key_bytes bits)

abbrev pub mac_of : Algorithms → ℕ → ℕ → Option IntegrityAlgorithm
mac_of algs id integ = if is_gcm id then none else some (algs.integrity integ)

is_aead-is_gcm : (id : ℕ) → is_aead id ≡ is_gcm id
is_aead-is_gcm id = ground arith

chosen_cipher :
    (algs : Algorithms) (id bits : ℕ) (enc : Encrypter) (size : ℕ)
    → get_encrypter_with_key_len algs id bits ≡ some (enc, size)
    → (size ≡ key_bytes bits) × (enc ≡ cipher_of algs id bits)
unfolding get_encrypter_with_key_len encrypter_of_size
chosen_cipher algs id bits enc size h = ground arith

chosen_mac :
    (algs : Algorithms) (id integ : ℕ) (a : IntegrityAlgorithm) (size : ℕ)
    → get_integrity_algorithm algs integ ≡ some (a, size)
    → is_gcm id ≡ false
    → (size ≡ mac_bytes id integ) × (some a ≡ mac_of algs id integ)
unfolding get_integrity_algorithm integrity_key_size
chosen_mac algs id integ a size h g = ground arith

-- The suite fits the numbers.
abbrev pub Suits : Algorithms → Found → Suite → Type 0
Suits algs f u =
    (u.enc_len ≡ cipher_bytes f.encr_id f.encr_key_len_bits)
    × (u.integ_len ≡ mac_bytes f.encr_id f.integ_id)
    × (u.encrypter ≡ cipher_of algs f.encr_id f.encr_key_len_bits)
    × (u.integrity ≡ mac_of algs f.encr_id f.integ_id)

abbrev aead_suite : Encrypter → ℕ → Suite
aead_suite enc size = record {
  encrypter = enc;
  enc_len = size + 4;
  integrity = none;
  integ_len = 0;
}

abbrev with_mac : Encrypter → ℕ → Option (IntegrityAlgorithm × ℕ) → Result RekeyError Suite
with_mac enc size o = do
  (integ, integ_size) ← or_error unsupported_integrity o
  ok (record { encrypter = enc; enc_len = size; integrity = some integ; integ_len = integ_size })

same_suite : (u v : Suite) → ◌≡◌ {A = Result RekeyError Suite} (ok u) (ok v) → u ≡ v
same_suite u v h = cc

module _ (algs : Algorithms) (f : Found) (u : Suite) where
  with_mac-Suits :
      (enc : Encrypter) (size : ℕ) (o : Option (IntegrityAlgorithm × ℕ))
      → size ≡ key_bytes f.encr_key_len_bits
      → enc ≡ cipher_of algs f.encr_id f.encr_key_len_bits
      → is_gcm f.encr_id ≡ false
      → get_integrity_algorithm algs f.integ_id ≡ o
      → with_mac enc size o ≡ ok u
      → Suits algs f u
  with_mac-Suits enc size none hs he g ho h = cc
  with_mac-Suits enc size (some (a, n)) hs he g ho h =
      let same = same_suite _ u h in
      let (hn, ha) = chosen_mac algs f.encr_id f.integ_id a n ho g in
      subst (Suits algs f) same (hs ∙ sym (rw g refl), hn, he, ha)

  with_cipher-Suits :
      (o : Option (Encrypter × ℕ))
      → get_encrypter_with_key_len algs f.encr_id f.encr_key_len_bits ≡ o
      → (or_error unsupported_encryption o >>= λ (enc, size).
          if is_aead f.encr_id
          then ok (aead_suite enc size)
          else with_mac enc size (get_integrity_algorithm algs f.integ_id))
        ≡ ok u
      → Suits algs f u
  with_cipher-Suits none ho h = cc
  with_cipher-Suits (some (enc, size)) ho h =
      let (hs, he) = chosen_cipher algs f.encr_id f.encr_key_len_bits enc size ho in
      by_kind (is_gcm f.encr_id) refl hs he (
        subst
          (λ b.
            (if b
              then ok (aead_suite enc size)
              else with_mac enc size (get_integrity_algorithm algs f.integ_id))
            ≡ ok u)
          (is_aead-is_gcm f.encr_id) h)
    where
      by_kind :
          (b : Bool)
          → is_gcm f.encr_id ≡ b
          → size ≡ key_bytes f.encr_key_len_bits
          → enc ≡ cipher_of algs f.encr_id f.encr_key_len_bits
          → (if b
              then ok (aead_suite enc size)
              else with_mac enc size (get_integrity_algorithm algs f.integ_id))
            ≡ ok u
          → Suits algs f u
      by_kind true g hs he k =
          subst (Suits algs f) (same_suite _ u k)
            (ap (λ n. n + 4) hs ∙ sym (rw g refl), sym (rw g refl), he, sym (rw g refl))
      by_kind false g hs he k = with_mac-Suits enc size _ hs he g refl k

  pub choose_suite-Suits : choose_suite algs f ≡ ok u → Suits algs f u
  unfolding choose_suite
  choose_suite-Suits h = with_cipher-Suits _ refl h

-- An association with its SPI, the SPI of the other direction and its keys.
pub record IsAssociation (algs : Algorithms) (f : Found) (spi remote : ℕ)
    (enc_key integ_key : Bytes) (sa : ChildSa) : Type 0 where
  pub own_spi : sa.association.spi ≡ spi
  pub other_spi : sa.remote_spi ≡ remote
  pub cipher : sa.association.encryption_alg ≡ cipher_of algs f.encr_id f.encr_key_len_bits
  pub cipher_key : sa.association.encryption_key ≡ enc_key
  pub mac : sa.association.integrity_alg2 ≡ mac_of algs f.encr_id f.integ_id
  pub mac_key : sa.association.integrity_key ≡ integ_key
  pub kind : sa.association.is_aead ≡ is_gcm f.encr_id
  pub fresh : sa.association.sequence_number ≡ 0
