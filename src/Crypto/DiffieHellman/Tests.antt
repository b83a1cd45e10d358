-- ===== src/Crypto/DiffieHellman/Tests.antt =====
-- diffiehellman.go: a run in a small group.
use swu_go.Prelude.{◌≡◌, refl, ◌∷◌, [], some, arith}
use swu_go.Prelude.Bytes.{Bytes}
use swu_go.Crypto.DiffieHellman.{
  number_from, bytes_of, byte_length, key_len, public_key_bytes, compute_shared_secret,
}
use swu_go.Crypto.DiffieHellman.Agreement.{end_with, compute_shared_secret-agree}

secret_of_two : compute_shared_secret (end_with 23 5 6) (19 ∷ []) ≡ some (2 ∷ [])
unfolding compute_shared_secret number_from bytes_of key_len byte_length
secret_of_two = refl

compute_shared_secret-agree_example :
    (secret : Bytes) × (compute_shared_secret
        (end_with 23 5 6)
        (public_key_bytes (end_with 23 5 15))
      ≡ some secret)
    × (compute_shared_secret (end_with 23 5 15) (public_key_bytes (end_with 23 5 6)) ≡ some secret)
compute_shared_secret-agree_example =
    compute_shared_secret-agree 23 5 6 15 (omega arith) (omega arith) (omega arith) (omega arith)
