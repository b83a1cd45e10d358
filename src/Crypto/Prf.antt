-- ===== src/Crypto/Prf.antt =====
-- pkg/crypto/prf.go: the key stream prf+ of RFC 7296, section 2.13. The HMAC over the hash of a PRF is
-- code of Go's packages, and a parameter.
pub mod Stream
pub mod Tests
use swu_go.Prelude.{
  ℕ, zero, suc, ◌+◌, ◌%◌, Bool, true, false, [], ◌∷◌, ◌++◌, Result, ok, err, stuck, ltb, ◌==◌,
  if◌then◌else◌, length, take,
}
use swu_go.Prelude.Bytes.{Bytes}

-- `mac key text` is what hmac.New(prf.Hash, key) sums up after `text` was written to it.
pub record Prf : Type 0 where
  pub mac : Bytes → Bytes → Bytes
  pub key_len : ℕ

pub data PrfError : Type 0 where
  too_many_blocks : PrfError

-- The block with the index `i`, behind the block `last`.
next_block : Prf → Bytes → Bytes → Bytes → ℕ → Bytes
next_block p key seed last i =
    if i == 1
    then p.mac key (seed ++ ((i % 256) ∷ []))
    else p.mac key (last ++ (seed ++ ((i % 256) ∷ [])))

-- The loop of PrfPlus, at `result`, `lastBlock` and `blockIndex`.
prf_loop : ℕ → Prf → Bytes → Bytes → ℕ → Bytes → Bytes → ℕ → Result PrfError Bytes
prf_loop zero p key seed total result last i = stuck
prf_loop (suc fuel) p key seed total result last i = elim (ltb (length result) total) [
  | false ↦ ok (take total result)
  | true ↦ elim (ltb 255 (i + 1)) [
    | true ↦ err too_many_blocks
    | false ↦
        let block = next_block p key seed last i in
        prf_loop fuel p key seed total (result ++ block) block (i + 1)
  ]
]

-- The index stops the loop in the round 255 at the latest.
pub prf_plus : Prf → Bytes → Bytes → ℕ → Result PrfError Bytes
prf_plus p key seed total = prf_loop 255 p key seed total [] [] 1
