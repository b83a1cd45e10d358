-- ===== src/Crypto/DiffieHellman.antt =====
-- pkg/crypto/diffiehellman.go: the exchange in a group of powers modulo a prime. The two primes, which are
-- constants of 1024 and 2048 bits, and the random private key are arguments.
pub mod Agreement
mod Tests
use swu_go.Prelude.{
  ℕ, zero, suc, ◌+◌, ◌*◌, ◌-◌, ◌/◌, ◌%◌, ◌^◌, true, false, Option, none, some, List, [], ◌∷◌, ◌++◌,
  ltb, ◌||◌, not, ◌==◌, if◌then◌else◌,
}
use swu_go.Prelude.Bytes.{Bytes}

pub record DiffieHellman : Type 0 where
  pub private_key : ℕ
  pub p : ℕ
  pub g : ℕ
  pub shared_key : Bytes

-- `SetBytes`, with what was read before.
unfoldable pub number_from : ℕ → Bytes → ℕ
number_from n [] = n
number_from n (b ∷ bs) = number_from (n * 256 + b) bs

-- The last `size` bytes of a number, the high ones first: `Bytes` with its padding.
unfoldable pub bytes_of : ℕ → ℕ → Bytes
bytes_of zero n = []
bytes_of (suc size) n = bytes_of size (n / 256) ++ (n % 256 ∷ [])

-- `(P.BitLen() + 7) / 8`; a number has fewer bytes than its value.
unfoldable pub byte_length : ℕ → ℕ → ℕ
byte_length zero n = 0
byte_length (suc fuel) n = elim (n == 0) [ true ↦ 0 | false ↦ suc (byte_length fuel (n / 256)) ]

unfoldable pub key_len : DiffieHellman → ℕ
key_len dh = byte_length dh.p dh.p

-- PublicKey of GenerateKey, as PublicKeyBytes gives it.
unfoldable pub public_key_bytes : DiffieHellman → Bytes
public_key_bytes dh = bytes_of (key_len dh) (dh.g ^ dh.private_key % dh.p)

-- What ComputeSharedSecret returns.
unfoldable pub compute_shared_secret : DiffieHellman → Bytes → Option Bytes
compute_shared_secret dh peer =
    let y = number_from 0 peer in
    if ltb y 2 || not (ltb y (dh.p - 1))
    then none
    else some (bytes_of (key_len dh) (y ^ dh.private_key % dh.p))

-- The write of ComputeSharedSecret to its receiver.
unfoldable pub store_shared_secret : DiffieHellman → Bytes → DiffieHellman
store_shared_secret dh peer = elim (compute_shared_secret dh peer) [
  | none ↦ dh
  | some secret ↦ record dh { shared_key = secret }
]
