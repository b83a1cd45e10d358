-- ===== src/Swu/Keys/Split.antt =====
-- crypto_keys.go: the keys lie behind one another, and are all of the key material.
use swu_go.Prelude.{
  slice-drop, ℕ, ◌+◌, ◌*◌, ◌≤◌, ◌≡◌, refl, sym, Bool-cases, inl, inr, ◌++◌, ok, ltb, lt→ltb,
  leb-true, shorter-false, length, length-take, length-drop, take, drop, slice_at, take_all,
  take-append-drop, arith,
}
use swu_go.Prelude.Bytes.{Bytes, be64}
use swu_go.Crypto.Prf.{prf_plus}
use swu_go.Crypto.Prf.Stream.{full_stream, cut_stream, prf_plus-full_stream}
use swu_go.Swu.Session.{IkeSaKeys}
use swu_go.Swu.Keys.{
  KeyContext, enc_key_len, integ_key_len, split_keys, derive_keys, generate_ike_sa_rekey_keys,
}

length-slice : (a n : ℕ) (xs : Bytes) → a + n ≤ length xs → length (slice_at a n xs) ≡ n
length-slice a n xs h = omega (arith, length-take n (drop a xs), length-drop a xs)

-- The keys in their order.
abbrev pub all_keys : IkeSaKeys → Bytes
all_keys k = k.sk_d ++ (k.sk_ai ++ (k.sk_ar ++ (k.sk_ei ++ (k.sk_er ++ (k.sk_pi ++ k.sk_pr)))))

-- Each key has the length that its algorithm wants.
pub record HasLengths (prf_len integ_len enc_len : ℕ) (k : IkeSaKeys) : Type 0 where
  pub d : length k.sk_d ≡ prf_len
  pub ai : length k.sk_ai ≡ integ_len
  pub ar : length k.sk_ar ≡ integ_len
  pub ei : length k.sk_ei ≡ enc_len
  pub er : length k.sk_er ≡ enc_len
  pub pi : length k.sk_pi ≡ prf_len
  pub pr : length k.sk_pr ≡ prf_len

-- The four keys behind the offset `c`.
tail_keys :
    (c enc_len prf_len : ℕ) (xs : Bytes)
    → length xs ≡ c + enc_len + enc_len + prf_len + prf_len
    → slice_at c enc_len xs
        ++ (slice_at (c + enc_len) enc_len xs
            ++ (slice_at (c + enc_len + enc_len) prf_len xs
                ++ slice_at (c + enc_len + enc_len + prf_len) prf_len xs))
      ≡ drop c xs
tail_keys c enc_len prf_len xs h =
    let f = c + enc_len + enc_len + prf_len in
    rw
      (
        take_all prf_len (drop f xs) (omega (arith, length-drop f xs)),
        slice-drop (c + enc_len + enc_len) prf_len xs,
        slice-drop (c + enc_len) enc_len xs,
      )
      (slice-drop c enc_len xs)

split_keys-all_keys :
    (prf_len integ_len enc_len : ℕ) (xs : Bytes)
    → length xs ≡ prf_len * 3 + integ_len * 2 + enc_len * 2
    → (all_keys (split_keys prf_len integ_len enc_len xs) ≡ xs)
      × HasLengths prf_len integ_len enc_len (split_keys prf_len integ_len enc_len xs)
unfolding split_keys
split_keys-all_keys p i e xs h = elim (Bool-cases (ltb 0 i)) [
  | inl some_integ ↦ rw some_integ (
    rw (tail_keys (p + i + i) e p xs (omega arith), slice-drop (p + i) i xs, slice-drop p i xs)
        (take-append-drop p xs),
    record {
      d = length-slice 0 p xs (omega arith);
      ai = length-slice p i xs (omega arith);
      ar = length-slice (p + i) i xs (omega arith);
      ei = length-slice (p + i + i) e xs (omega arith);
      er = length-slice (p + i + i + e) e xs (omega arith);
      pi = length-slice (p + i + i + e + e) p xs (omega arith);
      pr = length-slice (p + i + i + e + e + p) p xs (omega arith);
    },
  )
  | inr none ↦
      let zero_integ : i ≡ 0 = ground (arith, lt→ltb 0 i) in
      rw none (
        rw (tail_keys p e p xs (omega arith)) (take-append-drop p xs),
        record {
          d = length-slice 0 p xs (omega arith);
          ai = sym zero_integ;
          ar = sym zero_integ;
          ei = length-slice p e xs (omega arith);
          er = length-slice (p + e) e xs (omega arith);
          pi = length-slice (p + e + e) p xs (omega arith);
          pr = length-slice (p + e + e + p) p xs (omega arith);
        },
      )
]

-- What the second half of both functions gives.
module _ (c : KeyContext) (e i : ℕ) (he : enc_key_len c ≡ ok e) (hi : integ_key_len c ≡ ok i) where
  abbrev total : ℕ
  total = c.prf.key_len * 3 + i * 2 + e * 2

  derived :
      (skeyseed nonces stream : Bytes) (spi_i spi_r : ℕ)
      → prf_plus c.prf skeyseed (nonces ++ (be64 spi_i ++ be64 spi_r)) total
        ≡ cut_stream stream total
      → total ≤ length stream
      → (k : IkeSaKeys) × (derive_keys c skeyseed nonces spi_i spi_r ≡ ok k)
        × (all_keys k ≡ take total stream)
        × HasLengths c.prf.key_len i e k
  unfolding derive_keys
  derived skeyseed nonces stream spi_i spi_r s long =
      let size : length (take total stream) ≡ total = omega (arith, length-take total stream) in
      let (all, lengths) = split_keys-all_keys c.prf.key_len i e (take total stream) size in
      (
        split_keys c.prf.key_len i e (take total stream),
        rw (he, hi, s, leb-true total (length stream) long) refl,
        all,
        lengths,
      )

  -- GenerateIKESARekeyKeys succeeds if the old SK_d and the new shared key are not empty and the rest is
  -- as above, and the new keys are, joined, the front of
  -- prf+(prf(SK_d, g^ir | Ni | Nr), Ni | Nr | SPIi | SPIr) over the new nonces and SPIs.
  pub generate_ike_sa_rekey_keys-full_stream :
      (old_sk_d secret ni nr : Bytes) (spi_i spi_r : ℕ)
      → 1 ≤ length old_sk_d
      → 1 ≤ length secret
      → let seed = (ni ++ nr) ++ (be64 spi_i ++ be64 spi_r) in
        let stream = full_stream c.prf (c.prf.mac old_sk_d (secret ++ (ni ++ nr))) seed in
        total ≤ length stream
        → (k : IkeSaKeys) × (generate_ike_sa_rekey_keys c old_sk_d secret ni nr spi_i spi_r ≡ ok k)
          × (all_keys k ≡ take total stream)
          × HasLengths c.prf.key_len i e k
  unfolding generate_ike_sa_rekey_keys
  generate_ike_sa_rekey_keys-full_stream old_sk_d secret ni nr spi_i spi_r ho hs long =
      let key = c.prf.mac old_sk_d (secret ++ (ni ++ nr)) in
      let seed = (ni ++ nr) ++ (be64 spi_i ++ be64 spi_r) in
      let (k, e, all, lengths) =
        derived key (ni ++ nr) (full_stream c.prf key seed) spi_i spi_r
          (prf_plus-full_stream c.prf key seed total) long in
      (k, rw (shorter-false old_sk_d 1 ho, shorter-false secret 1 hs) e, all, lengths)
