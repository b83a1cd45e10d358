-- ===== src/Crypto/Milenage/Standard.antt =====
-- milenage.go: the functions f2 to f5* against 3GPP TS 35.206, section 4.1, and f1.
use swu_go.Prelude.{
  ℕ, ◌≤◌, ◌≡◌, refl, sym, ap, ◌/◌, ◌++◌, ok, length, take, drop, slice_at, length-append,
  length-take, length-drop, append_assoc, append-nil, arith,
}
use swu_go.Prelude.Bytes.{Bytes, xor_front, length-xor_front}
use swu_go.Crypto.Milenage.{Milenage, rotate, flip_last, temp, output, f1, f2f5, f3, f4, f5_star}
use swu_go.Crypto.Milenage.Challenge.{IsBlockCipher, length-mixed}
use swu_go.Crypto.Milenage.Blocks.{
  cycle, constant, rotate-cycle, xor_front-IsByte, cycle-IsByte, flip-constant, xor_front_regroup,
  cycle-xor_front, cycle-twice,
}

module _ (aes : Bytes → Bytes → Bytes) (cipher : IsBlockCipher aes) (m : Milenage)
    (fits : length m.opc ≡ 16) where
  abbrev pub standard_temp : Bytes → Bytes
  standard_temp rand = aes m.k (xor_front 16 rand m.opc)

  -- OUT2 to OUT5, by their r and c.
  abbrev pub standard_out : Bytes → ℕ → ℕ → Bytes
  standard_out rand r c =
      xor_front 16
        (aes m.k (xor_front 16 (cycle r (xor_front 16 (standard_temp rand) m.opc)) (constant c)))
        m.opc

  length-standard_temp : (rand : Bytes) → length rand ≡ 16 → length (standard_temp rand) ≡ 16
  length-standard_temp rand h =
      cipher m.k _ (length-xor_front 16 rand m.opc (omega arith) (omega arith))

  length-cycle : (r : ℕ) (x : Bytes) → r / 8 ≤ 16 → length x ≡ 16 → length (cycle r x) ≡ 16
  length-cycle r x h k = omega (
    arith,
    length-append (drop (r / 8) x) (take (r / 8) x),
    length-drop (r / 8) x,
    length-take (r / 8) x,
  )

  output-standard_out :
      (rand x : Bytes) (r c : ℕ)
      → length rand ≡ 16
      → r / 8 ≤ 16
      → x ≡ cycle r (xor_front 16 (temp aes m rand) m.opc)
      → output aes m (flip_last c x) ≡ standard_out rand r c
  unfolding output temp
  output-standard_out rand x r c h k e =
      let t = xor_front 16 (standard_temp rand) m.opc in
      let size : length t ≡ 16 =
        length-xor_front 16 (standard_temp rand) m.opc (omega (arith, length-standard_temp rand h))
          (omega arith) in
      rw
        (
          e,
          flip-constant 15 c (cycle r t) (length-cycle r t k size)
              (cycle-IsByte r t (xor_front-IsByte 16 (standard_temp rand) m.opc)),
        )
        refl

  -- For a RAND of 16 bytes, F2F5 gives RES and AK, F3 gives CK, F4 gives IK and F5Star gives AK* as the
  -- standard has them: out of OUT2, OUT3, OUT4 and OUT5, by the rotations 0, 32, 64 and 96 and the
  -- constants 1, 2, 4 and 8.
  pub f2f5-standard_out :
      (rand : Bytes)
      → length rand ≡ 16
      → (f2f5 aes m rand
          ≡ ok (slice_at 8 8 (standard_out rand 0 1), take 6 (standard_out rand 0 1)))
        × (f3 aes m rand ≡ ok (standard_out rand 32 2))
        × (f4 aes m rand ≡ ok (standard_out rand 64 4))
        × (f5_star aes m rand ≡ ok (take 6 (standard_out rand 96 8)))
  unfolding f2f5 f3 f4 f5_star
  f2f5-standard_out rand h =
      let t = xor_front 16 (temp aes m rand) m.opc in
      let size : length t ≡ 16 = length-mixed aes cipher m fits rand h in
      let (by32, by64, by96) = rotate-cycle t size in
      (
        rw h (
            ap (λ o. ok (slice_at 8 8 o, take 6 o))
              (output-standard_out rand t 0 1 h (omega arith) (sym (append-nil t)))),
        rw h (ap (λ o. ok o) (output-standard_out rand (rotate t 32) 32 2 h (omega arith) by32)),
        rw h (ap (λ o. ok o) (output-standard_out rand (rotate t 64) 64 4 h (omega arith) by64)),
        rw h (
            ap (λ o. ok (take 6 o))
              (output-standard_out rand (rotate t 96) 96 8 h (omega arith) by96)),
      )

  abbrev pub in1 : Bytes → Bytes → Bytes
  in1 sqn amf = (sqn ++ amf) ++ (sqn ++ amf)

  -- OUT1 of the standard with `t` for TEMP; r1 is 64, and c1 is 0.
  abbrev pub standard_out1 : Bytes → Bytes → Bytes → Bytes
  standard_out1 t sqn amf =
      xor_front 16 (aes m.k (xor_front 16 t (cycle 64 (xor_front 16 (in1 sqn amf) m.opc)))) m.opc

  -- For a RAND of 16 bytes, SQN of 6 and AMF of 2, F1 gives the first and the last 8 bytes of OUT1, where
  -- the halves of TEMP are exchanged, and the standard has TEMP as it is.
  pub f1-standard_out1 :
      (rand sqn amf : Bytes)
      → length rand ≡ 16
      → length sqn ≡ 6
      → length amf ≡ 2
      → let out = standard_out1 (cycle 64 (standard_temp rand)) sqn amf in
        f1 aes m rand sqn amf ≡ ok (take 8 out, slice_at 8 8 out)
  unfolding f1 output temp
  f1-standard_out1 rand sqn amf h k l =
      let t = standard_temp rand in
      let size_t = length-standard_temp rand h in
      let half : length (sqn ++ amf) ≡ 8 = omega (arith, length-append sqn amf) in
      let size : length (in1 sqn amf) ≡ 16 =
        omega (arith, length-append (sqn ++ amf) (sqn ++ amf)) in
      let text : sqn ++ (amf ++ (sqn ++ amf)) ≡ in1 sqn amf =
        sym (append_assoc sqn amf (sqn ++ amf)) in
      let (by32, by64, by96) =
        rotate-cycle (xor_front 16 t m.opc) (length-mixed aes cipher m fits rand h) in
      let same : xor_front 16 (cycle 64 (xor_front 16 t m.opc)) (in1 sqn amf)
          ≡ xor_front 16 (cycle 64 t) (cycle 64 (xor_front 16 (in1 sqn amf) m.opc)) =
        rw
          (
            cycle-xor_front t m.opc size_t fits,
            cycle-xor_front (in1 sqn amf) m.opc size fits,
            cycle-twice (sqn ++ amf) half,
          )
          (xor_front_regroup 16 (cycle 64 t) (cycle 64 m.opc) (in1 sqn amf)) in
      rw (h, k, l, text, by64, same) refl
