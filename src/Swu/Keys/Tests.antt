-- ===== src/Swu/Keys/Tests.antt =====
-- crypto_keys.go: the theorems at concrete inputs, with a toy PRF.
use swu_go.Prelude.{false, some, [], ◌∷◌, ◌++◌}
use swu_go.Prelude.Bytes.{Bytes, be64}
use swu_go.Crypto.Prf.Tests.{toy_prf}
use swu_go.Swu.Keys.{KeyContext}

abbrev context : KeyContext
context = record {
  prf = toy_prf;
  ni = 1 ∷ [];
  shared_key = some (9 ∷ []);
  enc_key_size = some 3;
  integ_key_size = some 1;
  is_aead = false;
  spi_i = 5;
  spi_r = 6;
}

abbrev seed : Bytes
seed = (1 ∷ 2 ∷ []) ++ (be64 5 ++ be64 6)
