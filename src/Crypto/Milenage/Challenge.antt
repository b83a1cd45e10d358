-- ===== src/Crypto/Milenage/Challenge.antt =====
-- milenage.go: a challenge that the network made, at the SIM.
use swu_go.Prelude.{
  ℕ, zero, suc, ◌≡◌, refl, sym, Bool, true, false, [], ◌∷◌, ◌++◌, ok, err, ltb, ==_refl,
  if◌then◌else◌, length, take, drop, slice_at, length-append, length-take, length-drop, drop-drop,
  ◌∙◌, take-append_eq, drop-append_eq, take_all, All, arith,
}
use swu_go.Prelude.Bytes.{Bytes, IsByte, byte_at, xor, xor_front, length-xor_front, xor_front_twice}
use swu_go.Eap.Auts.{decode_sqn}
use swu_go.Crypto.Milenage.{
  Milenage, out_of_sync, rotate, flip_last, same_front, new_milenage, compute_opc, temp, output, f1,
  f2f5, f3, f4, f5_star, generate_autn, generate_auts, answer, verify_autn,
}

-- A block of 16 bytes is encrypted to 16 bytes, whatever the key.
abbrev pub IsBlockCipher : (Bytes → Bytes → Bytes) → Type 0
IsBlockCipher aes = (k b : Bytes) → length b ≡ 16 → length (aes k b) ≡ 16

same_front_refl : (n : ℕ) (xs : Bytes) → same_front n xs xs ≡ true
unfolding same_front
same_front_refl zero xs = refl
same_front_refl (suc n) xs = rw (==_refl (byte_at 0 xs), same_front_refl n (drop 1 xs)) refl

length-rotate : (block : Bytes) (bits : ℕ) → length (rotate block bits) ≡ 16
unfolding rotate
length-rotate block bits = refl

length-flip_last : (c : ℕ) (block : Bytes) → length block ≡ 16 → length (flip_last c block) ≡ 16
length-flip_last c block h =
    omega
      (arith, length-append (take 15 block) (xor 8 (byte_at 15 block) c ∷ []), length-take 15 block)

module _ (aes : Bytes → Bytes → Bytes) (cipher : IsBlockCipher aes) where
  -- A key and an operator's constant of 16 bytes make an OPc of 16 bytes.
  pub length-opc :
      (k op : Bytes) (use_opc : Bool)
      → length k ≡ 16
      → length op ≡ 16
      → (m : Milenage) × (new_milenage aes k op use_opc ≡ ok m) × (length m.opc ≡ 16)
  unfolding new_milenage compute_opc
  length-opc k op true h l = (record { k = k; op = op; opc = op }, rw (h, l) refl, l)
  length-opc k op false h l = (
    record { k = k; op = op; opc = compute_opc aes k op },
    rw (h, l) refl,
    length-xor_front 16 (aes k op) op (omega (arith, cipher k op l)) (omega arith),
  )

  module _ (m : Milenage) (fits : length m.opc ≡ 16) where
    length-output : (t : Bytes) → length t ≡ 16 → length (output aes m t) ≡ 16
    unfolding output
    length-output t k = length-xor_front 16 _ _ (omega (arith, cipher m.k t k)) (omega arith)

    length-temp : (rand : Bytes) → length rand ≡ 16 → length (temp aes m rand) ≡ 16
    unfolding temp
    length-temp rand h = cipher m.k _ (length-xor_front 16 rand m.opc (omega arith) (omega arith))

    -- OUT1 to OUT5 of TS 35.206, as the code computes them.
    abbrev pub mixed : Bytes → Bytes
    mixed rand = xor_front 16 (temp aes m rand) m.opc

    pub length-mixed : (rand : Bytes) → length rand ≡ 16 → length (mixed rand) ≡ 16
    length-mixed rand h = length-xor_front 16 _ _ (omega (arith, length-temp rand h)) (omega arith)

    abbrev pub out1 : Bytes → Bytes → Bytes → Bytes
    out1 rand sqn amf =
        output aes m (xor_front 16 (rotate (mixed rand) 64) (sqn ++ (amf ++ (sqn ++ amf))))

    abbrev pub out2 : Bytes → Bytes
    out2 rand = output aes m (flip_last 1 (mixed rand))

    length-out2 : (rand : Bytes) → length rand ≡ 16 → length (out2 rand) ≡ 16
    length-out2 rand h = length-output _ (length-flip_last 1 _ (length-mixed rand h))

    length-out1 :
        (rand sqn amf : Bytes) → length sqn ≡ 6 → length amf ≡ 2 → length (out1 rand sqn amf) ≡ 16
    length-out1 rand sqn amf h k =
        let in1 : length (sqn ++ (amf ++ (sqn ++ amf))) ≡ 16 = omega (
          arith,
          length-append sqn (amf ++ (sqn ++ amf)),
          length-append amf (sqn ++ amf),
          length-append sqn amf,
        ) in
        length-output _
          (length-xor_front 16 _ _ (omega (arith, length-rotate (mixed rand) 64)) (omega arith))

    f2f5_ok :
        (rand : Bytes)
        → length rand ≡ 16
        → f2f5 aes m rand ≡ ok (slice_at 8 8 (out2 rand), take 6 (out2 rand))
    unfolding f2f5
    f2f5_ok rand h = rw h refl

    f1_ok :
        (rand sqn amf : Bytes)
        → length rand ≡ 16
        → length sqn ≡ 6
        → length amf ≡ 2
        → f1 aes m rand sqn amf ≡ ok (take 8 (out1 rand sqn amf), slice_at 8 8 (out1 rand sqn amf))
    unfolding f1
    f1_ok rand sqn amf h k l = rw (h, k, l) refl

    f3_ok : (rand : Bytes) → length rand ≡ 16 → (ck : Bytes) × (f3 aes m rand ≡ ok ck)
    unfolding f3
    f3_ok rand h = (output aes m (flip_last 2 (rotate (mixed rand) 32)), rw h refl)

    f4_ok : (rand : Bytes) → length rand ≡ 16 → (ik : Bytes) × (f4 aes m rand ≡ ok ik)
    unfolding f4
    f4_ok rand h = (output aes m (flip_last 4 (rotate (mixed rand) 64)), rw h refl)

    -- AUTS for a number: the number under AK*, and a MAC-S of 8 bytes.
    pub generate_auts_ok :
        (rand sqn : Bytes)
        → length rand ≡ 16
        → length sqn ≡ 6
        → All IsByte sqn
        → (auts ak_star : Bytes) × (generate_auts aes m rand sqn ≡ ok auts)
          × (f5_star aes m rand ≡ ok ak_star)
          × (length auts ≡ 14)
          × (xor_front 6 auts ak_star ≡ sqn)
    unfolding generate_auts f5_star
    generate_auts_ok rand sqn h k bytes =
        let out5 = output aes m (flip_last 8 (rotate (mixed rand) 96)) in
        let size5 : length out5 ≡ 16 =
          length-output _ (length-flip_last 8 _ (length-rotate (mixed rand) 96)) in
        let ak = take 6 out5 in
        let size : length ak ≡ 6 = omega (arith, length-take 6 out5) in
        let out = out1 rand sqn (0 ∷ 0 ∷ []) in
        let mac = slice_at 8 8 out in
        let size_mac : length mac ≡ 8 = omega (
          arith,
          length-take 8 (drop 8 out),
          length-drop 8 out,
          length-out1 rand sqn (0 ∷ 0 ∷ []) k refl,
        ) in
        let front = length-xor_front 6 sqn ak (omega arith) (omega arith) in
        (
          xor_front 6 sqn ak ++ mac,
          ak,
          rw (h, f1_ok rand sqn (0 ∷ 0 ∷ []) h k refl) refl,
          rw h refl,
          omega (arith, length-append (xor_front 6 sqn ak) mac, front),
          xor_front_twice 6 sqn ak mac (sym k) (omega arith) bytes,
        )

    -- What VerifyAUTN answers to a challenge that GenerateAUTN made.
    pub record IsAnswered (rand sqn amf : Bytes) (expected : ℕ) : Type 0 where
      pub autn : Bytes
      pub res : Bytes
      pub ak : Bytes
      pub ck : Bytes
      pub ik : Bytes
      pub auts : Bytes
      pub made : generate_autn aes m rand sqn amf ≡ ok autn
      pub length-autn : length autn ≡ 16
      pub concealed : xor_front 6 autn ak ≡ sqn
      pub by_f2f5 : f2f5 aes m rand ≡ ok (res, ak)
      pub by_f3 : f3 aes m rand ≡ ok ck
      pub by_f4 : f4 aes m rand ≡ ok ik
      pub by_auts : generate_auts aes m rand sqn ≡ ok auts
      pub verified :
          verify_autn aes m rand autn expected
          ≡ (if ltb (decode_sqn sqn) expected then err (out_of_sync auts) else ok (res, ck, ik))

    answer_ok :
        (rand res sqn ck ik auts : Bytes) (expected : ℕ)
        → f3 aes m rand ≡ ok ck
        → f4 aes m rand ≡ ok ik
        → generate_auts aes m rand sqn ≡ ok auts
        → answer aes m rand res sqn expected
          ≡ (if ltb (decode_sqn sqn) expected then err (out_of_sync auts) else ok (res, ck, ik))
    unfolding answer
    answer_ok rand res sqn ck ik auts expected h k l = rw (h, k, l) refl

    -- Whatever VerifyAUTN of such a SIM expects.
    pub verify_autn-generate_autn :
        (rand sqn amf : Bytes) (expected : ℕ)
        → length rand ≡ 16
        → length sqn ≡ 6
        → length amf ≡ 2
        → All IsByte sqn
        → IsAnswered rand sqn amf expected
    unfolding generate_autn verify_autn
    verify_autn-generate_autn rand sqn amf expected h k l bytes =
        let out = out1 rand sqn amf in
        let ak = take 6 (out2 rand) in
        let mac = take 8 out in
        let size : length ak ≡ 6 = omega (arith, length-take 6 (out2 rand), length-out2 rand h) in
        let hidden = xor_front 6 sqn ak in
        let front : length hidden ≡ 6 = length-xor_front 6 sqn ak (omega arith) (omega arith) in
        let size_mac : length mac ≡ 8 =
          omega (arith, length-take 8 out, length-out1 rand sqn amf k l) in
        let back : xor_front 6 (hidden ++ (amf ++ mac)) ak ≡ sqn =
          xor_front_twice 6 sqn ak (amf ++ mac) (sym k) (omega arith) bytes in
        let whole : length (hidden ++ (amf ++ mac)) ≡ 16 =
          omega (arith, length-append hidden (amf ++ mac), length-append amf mac) in
        let at6 : drop 6 (hidden ++ (amf ++ mac)) ≡ amf ++ mac =
          drop-append_eq 6 hidden (amf ++ mac) (sym front) in
        let at8 : drop 8 (hidden ++ (amf ++ mac)) ≡ mac =
          drop-drop 6 2 (hidden ++ (amf ++ mac)) ∙ rw at6 (drop-append_eq 2 amf mac (sym l)) in
        let (ck, ck_eq) = f3_ok rand h in
        let (ik, ik_eq) = f4_ok rand h in
        let (auts, ak_star, auts_eq, star_eq, size_auts, open_auts) =
          generate_auts_ok rand sqn h k bytes in
        record {
          autn = hidden ++ (amf ++ mac);
          res = slice_at 8 8 (out2 rand);
          ak = ak;
          ck = ck;
          ik = ik;
          auts = auts;
          made = rw (f2f5_ok rand h, f1_ok rand sqn amf h k l) refl;
          length-autn = whole;
          concealed = back;
          by_f2f5 = f2f5_ok rand h;
          by_f3 = ck_eq;
          by_f4 = ik_eq;
          by_auts = auts_eq;
          verified =
              rw
                (
                  h,
                  whole,
                  f2f5_ok rand h,
                  back,
                  at6,
                  at8,
                  take-append_eq 2 amf mac (sym l),
                  f1_ok rand sqn amf h k l,
                  take_all 8 mac (sym size_mac),
                  same_front_refl 8 mac,
                )
                (answer_ok rand (slice_at 8 8 (out2 rand)) sqn ck ik auts expected ck_eq ik_eq
                  auts_eq);
        }
