-- ===== src/Swu/Keys.antt =====
-- pkg/swu/crypto_keys.go: the keys of an IKE SA, cut out of the key stream.
pub mod Split
mod Tests
use swu_go.Prelude.{
  ℕ, ◌+◌, ◌*◌, Bool, true, false, Option, none, some, [], ◌++◌, Result, ok, err, panic, stuck,
  ◌>>=◌, ◌>>◌, fail_if, ltb, if◌then◌else◌, shorter, length, slice_at,
}
use swu_go.Prelude.Bytes.{Bytes, be64}
use swu_go.Crypto.Prf.{Prf, PrfError, prf_plus}
use swu_go.Swu.Session.{IkeSaKeys}

pub data KeyError : Type 0 where
  no_shared_key : KeyError
  no_encryption : KeyError
  no_integrity : KeyError
  empty_sk_d : KeyError
  empty_shared_key : KeyError
  prf_failed : PrfError → KeyError

-- The fields of a session that the derivation reads: `none` for a nil algorithm or shared key, and else
-- the key size of the algorithm.
pub record KeyContext : Type 0 where
  pub prf : Prf
  pub ni : Bytes
  pub shared_key : Option Bytes
  pub enc_key_size : Option ℕ
  pub integ_key_size : Option ℕ
  pub is_aead : Bool
  pub spi_i : ℕ
  pub spi_r : ℕ

abbrev key_of_none : KeyError → Option ℕ → Result KeyError ℕ
key_of_none e none = err e
key_of_none e (some n) = ok n

-- An AEAD key is 4 bytes longer, by its salt.
abbrev pub enc_key_len : KeyContext → Result KeyError ℕ
enc_key_len c = do n ← key_of_none no_encryption c.enc_key_size; ok (if c.is_aead then n + 4 else n)

abbrev pub integ_key_len : KeyContext → Result KeyError ℕ
integ_key_len c = if c.is_aead then ok 0 else key_of_none no_integrity c.integ_key_size

-- SK_d, SK_ai, SK_ar, SK_ei, SK_er, SK_pi and SK_pr, one behind the other; without an integrity key
-- SK_ai and SK_ar stay nil.
unfoldable pub split_keys : ℕ → ℕ → ℕ → Bytes → IkeSaKeys
split_keys prf_len integ_len enc_len key_mat =
    let a = prf_len in
    let b = if ltb 0 integ_len then a + integ_len else a in
    let c = if ltb 0 integ_len then b + integ_len else b in
    let d = c + enc_len in
    let e = d + enc_len in
    let f = e + prf_len in
    record {
      sk_d = slice_at 0 prf_len key_mat;
      sk_ai = if ltb 0 integ_len then slice_at a integ_len key_mat else [];
      sk_ar = if ltb 0 integ_len then slice_at b integ_len key_mat else [];
      sk_ei = slice_at c enc_len key_mat;
      sk_er = slice_at d enc_len key_mat;
      sk_pi = slice_at e prf_len key_mat;
      sk_pr = slice_at f prf_len key_mat;
    }

abbrev prf_result : Result PrfError Bytes → Result KeyError Bytes
prf_result (ok b) = ok b
prf_result (err e) = err (prf_failed e)
prf_result panic = panic
prf_result stuck = stuck

-- The second half of both functions.
pub derive_keys : KeyContext → Bytes → Bytes → ℕ → ℕ → Result KeyError IkeSaKeys
derive_keys c skeyseed nonces spi_i spi_r = do
  enc_len ← enc_key_len c
  integ_len ← integ_key_len c
  let total = c.prf.key_len * 3 + integ_len * 2 + enc_len * 2
  key_mat ← prf_result (prf_plus c.prf skeyseed (nonces ++ (be64 spi_i ++ be64 spi_r)) total)
  ok (split_keys c.prf.key_len integ_len enc_len key_mat)

abbrev pub from_shared_key : KeyContext → Bytes → Option Bytes → Result KeyError IkeSaKeys
from_shared_key c peer_nonce none = err no_shared_key
from_shared_key c peer_nonce (some secret) =
    let nonces = c.ni ++ peer_nonce in
    derive_keys c (c.prf.mac nonces secret) nonces c.spi_i c.spi_r

-- GenerateIKESAKeys: the keys that the session gets.
pub generate_ike_sa_keys : KeyContext → Bytes → Result KeyError IkeSaKeys
generate_ike_sa_keys c peer_nonce = from_shared_key c peer_nonce c.shared_key

-- GenerateIKESARekeyKeys
pub generate_ike_sa_rekey_keys :
    KeyContext → Bytes → Bytes → Bytes → Bytes → ℕ → ℕ → Result KeyError IkeSaKeys
generate_ike_sa_rekey_keys c old_sk_d new_dh_secret ni nr new_spi_i new_spi_r = do
  fail_if (shorter old_sk_d 1) empty_sk_d
  fail_if (shorter new_dh_secret 1) empty_shared_key
  let skeyseed = c.prf.mac old_sk_d (new_dh_secret ++ (ni ++ nr))
  derive_keys c skeyseed (ni ++ nr) new_spi_i new_spi_r
