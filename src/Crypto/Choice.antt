-- ===== src/Crypto/Choice.antt =====
-- pkg/crypto/encrypt.go and integrity.go: the algorithm of a number, with its KeySize. The algorithms
-- themselves call Go's crypto packages, and are parameters.
use swu_go.Prelude.{ℕ, ◌/◌, ◌%◌, ◌&&◌, ◌||◌, not, Option, none, some, ◌==◌, if◌then◌else◌}
use swu_go.Crypto.{Encrypter, IntegrityAlgorithm}

-- aesCBC and aesGCM by the size of their key, and the integrity algorithms by their number.
pub record Algorithms : Type 0 where
  pub aes_cbc : ℕ → Encrypter
  pub aes_gcm : ℕ → Encrypter
  pub integrity : ℕ → IntegrityAlgorithm

unfoldable pub encrypter_of_size : Algorithms → ℕ → ℕ → Option (Encrypter × ℕ)
encrypter_of_size algs id size =
    if id == 12
    then some (algs.aes_cbc size, size)
    else if id == 18 || (id == 19 || id == 20)
    then some (algs.aes_gcm size, size)
    else none

unfoldable pub get_encrypter_with_key_len : Algorithms → ℕ → ℕ → Option (Encrypter × ℕ)
get_encrypter_with_key_len algs id bits =
    if not (bits == 0) && not (bits % 8 == 0)
    then none
    else encrypter_of_size algs id (if bits == 0 then 16 else bits / 8)

unfoldable pub integrity_key_size : ℕ → Option ℕ
integrity_key_size id =
    if id == 0
    then some 0
    else if id == 2
    then some 20
    else if id == 12
    then some 32
    else if id == 13
    then some 48
    else if id == 14
    then some 64
    else none

unfoldable pub get_integrity_algorithm : Algorithms → ℕ → Option (IntegrityAlgorithm × ℕ)
get_integrity_algorithm algs id = elim (integrity_key_size id) [
  | none ↦ none
  | some n ↦ some (algs.integrity id, n)
]
