-- ===== src/Crypto.antt =====
-- pkg/crypto/encrypt.go and integrity.go: the interfaces Encrypter and IntegrityAlgorithm. Their
-- implementations call Go's crypto packages, so they are parameters, with the laws that the protocol
-- code relies on.
pub mod Prf
pub mod Milenage
pub mod Choice
pub mod DiffieHellman
pub mod Gcm
use swu_go.Prelude.{ℕ, ◌+◌, ◌%◌, ◌≡◌, Bool, true, false, if◌then◌else◌, Option, some, length}
use swu_go.Prelude.Bytes.{Bytes}

-- The arguments of `encrypt` and `decrypt` are the text, the key, the IV and the additional data; `none`
-- is an error. The record has what a call returns; what aesGCM writes behind its key is in Crypto/Gcm.
pub record Encrypter : Type 0 where
  pub encrypt : Bytes → Bytes → Bytes → Bytes → Option Bytes
  pub decrypt : Bytes → Bytes → Bytes → Bytes → Option Bytes
  pub iv_size : ℕ
  pub block_size : ℕ

pub record IntegrityAlgorithm : Type 0 where
  pub compute : Bytes → Bytes → Bytes
  pub verify : Bytes → Bytes → Bytes → Bool
  pub output_size : ℕ

-- What the protocol relies on under one key: a plaintext of whole blocks (of any length, for an AEAD)
-- with an IV of the stated size is encrypted without an error, the ciphertext is `overhead` longer, and
-- decryption under the same key, IV and additional data gives the plaintext back.
pub record EncrypterLaws (e : Encrypter) (key : Bytes) (is_aead : Bool) : Type 0 where
  pub encrypts :
      (text iv aad : Bytes)
      → length iv ≡ e.iv_size
      → (is_aead ≡ false → length text % e.block_size ≡ 0)
      → (cipher : Bytes) × (e.encrypt text key iv aad ≡ some cipher)
        × (length cipher ≡ length text + (if is_aead then 16 else 0))
        × (e.decrypt cipher key iv aad ≡ some text)

-- A computed tag has the stated length, and verifies.
pub record IntegrityLaws (a : IntegrityAlgorithm) : Type 0 where
  pub length-compute : (key text : Bytes) → length (a.compute key text) ≡ a.output_size
  pub verify-compute : (key text : Bytes) → a.verify key text (a.compute key text) ≡ true
