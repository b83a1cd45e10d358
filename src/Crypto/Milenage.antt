-- ===== src/Crypto/Milenage.antt =====
-- pkg/crypto/milenage.go: authentication by the functions f1 to f5*. AES is Go's crypto/aes, and a
-- parameter: `aes k b` is what Encrypt of the cipher under the key `k` makes of the block `b`.
-- decodeSQN is the same code as DecodeSQN of pkg/eap/auts.go.
pub mod Blocks
pub mod Standard
pub mod Challenge
pub mod Tests
use swu_go.Prelude.{
  ℕ, zero, suc, ◌+◌, ◌-◌, ◌/◌, ◌%◌, Bool, true, ◌&&◌, ◌||◌, not, [], ◌∷◌, ◌++◌, Result, ok, err,
  panic, stuck, ◌>>=◌, ltb, ◌==◌, if◌then◌else◌, length, take, drop, slice_at,
}
use swu_go.Prelude.Bytes.{Bytes, byte_at, xor, xor_front}
use swu_go.Eap.Auts.{decode_sqn}

pub record Milenage : Type 0 where
  pub k : Bytes
  pub op : Bytes
  pub opc : Bytes

-- `out_of_sync` comes with AUTS.
pub data AkaError : Type 0 where
  key_length : AkaError
  parameter_length : AkaError
  mac_failed : AkaError
  out_of_sync : Bytes → AkaError

-- `rotate`, from the index 16 - left on.
rotate_from : ℕ → ℕ → Bytes → Bytes
rotate_from zero shift block = []
rotate_from (suc left) shift block =
    byte_at ((16 - suc left + shift) % 16) block ∷ rotate_from left shift block

unfoldable pub rotate : Bytes → ℕ → Bytes
unfolding rotate_from
rotate block bits = rotate_from 16 (bits / 8) block

-- `tmp[15] ^= c`
abbrev pub flip_last : ℕ → Bytes → Bytes
flip_last c block = take 15 block ++ (xor 8 (byte_at 15 block) c ∷ [])

-- The loop that compares the MACs.
unfoldable pub same_front : ℕ → Bytes → Bytes → Bool
same_front zero xs ys = true
same_front (suc n) xs ys = (byte_at 0 xs == byte_at 0 ys) && same_front n (drop 1 xs) (drop 1 ys)

module _ (aes : Bytes → Bytes → Bytes) where
  unfoldable pub compute_opc : Bytes → Bytes → Bytes
  compute_opc k op = xor_front 16 (aes k op) op

  unfoldable pub new_milenage : Bytes → Bytes → Bool → Result AkaError Milenage
  new_milenage k op use_opc =
      if not (length k == 16) || not (length op == 16)
      then err key_length
      else ok (record { k = k; op = op; opc = if use_opc then op else compute_opc k op })

  -- TEMP, with which each function begins.
  unfoldable pub temp : Milenage → Bytes → Bytes
  temp m rand = aes m.k (xor_front 16 rand m.opc)

  -- The encryption with which each ends.
  unfoldable pub output : Milenage → Bytes → Bytes
  output m tmp = xor_front 16 (aes m.k tmp) m.opc

  -- F1, whose text is IN1: MAC-A and MAC-S.
  unfoldable pub f1 : Milenage → Bytes → Bytes → Bytes → Result AkaError (Bytes × Bytes)
  f1 m rand sqn amf =
      if not (length rand == 16) || (not (length sqn == 6) || not (length amf == 2))
      then err parameter_length
      else (let in1 = sqn ++ (amf ++ (sqn ++ amf)) in
          let out = output m (xor_front 16 (rotate (xor_front 16 (temp m rand) m.opc) 64) in1) in
          ok (take 8 out, slice_at 8 8 out))

  -- F2F5: RES and AK.
  unfoldable pub f2f5 : Milenage → Bytes → Result AkaError (Bytes × Bytes)
  f2f5 m rand =
      if not (length rand == 16)
      then err parameter_length
      else (let out = output m (flip_last 1 (xor_front 16 (temp m rand) m.opc)) in
          ok (slice_at 8 8 out, take 6 out))

  -- F3: CK.
  unfoldable pub f3 : Milenage → Bytes → Result AkaError Bytes
  f3 m rand =
      if not (length rand == 16)
      then err parameter_length
      else ok (output m (flip_last 2 (rotate (xor_front 16 (temp m rand) m.opc) 32)))

  -- F4: IK.
  unfoldable pub f4 : Milenage → Bytes → Result AkaError Bytes
  f4 m rand =
      if not (length rand == 16)
      then err parameter_length
      else ok (output m (flip_last 4 (rotate (xor_front 16 (temp m rand) m.opc) 64)))

  -- F5Star: AK*.
  unfoldable pub f5_star : Milenage → Bytes → Result AkaError Bytes
  f5_star m rand =
      if not (length rand == 16)
      then err parameter_length
      else ok (take 6 (output m (flip_last 8 (rotate (xor_front 16 (temp m rand) m.opc) 96))))

  unfoldable pub generate_autn : Milenage → Bytes → Bytes → Bytes → Result AkaError Bytes
  generate_autn m rand sqn amf = do
    (res, ak) ← f2f5 m rand
    (mac_a, mac_s) ← f1 m rand sqn amf
    ok (xor_front 6 sqn ak ++ (amf ++ mac_a))

  unfoldable pub generate_auts : Milenage → Bytes → Bytes → Result AkaError Bytes
  generate_auts m rand sqn = do
    ak_star ← f5_star m rand
    (mac_a, mac_s) ← f1 m rand sqn (0 ∷ 0 ∷ [])
    ok (xor_front 6 sqn ak_star ++ mac_s)

  -- The part of VerifyAUTN behind the comparison of the MACs.
  unfoldable pub answer :
      Milenage → Bytes → Bytes → Bytes → ℕ → Result AkaError (Bytes × Bytes × Bytes)
  answer m rand res sqn expected =
      if ltb (decode_sqn sqn) expected
      then (do auts ← generate_auts m rand sqn; err (out_of_sync auts))
      else (do ck ← f3 m rand; ik ← f4 m rand; ok (res, ck, ik))

  -- RES, CK and IK.
  unfoldable pub verify_autn :
      Milenage → Bytes → Bytes → ℕ → Result AkaError (Bytes × Bytes × Bytes)
  verify_autn m rand autn expected =
      if not (length rand == 16) || not (length autn == 16) then err parameter_length else (do
        (res, ak) ← f2f5 m rand
        let sqn = xor_front 6 autn ak
        (mac_a, mac_s) ← f1 m rand sqn (slice_at 6 2 autn)
        (if same_front 8 mac_a (slice_at 8 8 autn)
            then answer m rand res sqn expected
            else err mac_failed))
