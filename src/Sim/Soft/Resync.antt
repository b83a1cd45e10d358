-- ===== src/Sim/Soft/Resync.antt =====
-- softsim.go: the SIM and the network, on either side of a challenge.
use swu_go.Prelude.{◌+◌, ◌≤◌, ◌<◌, ◌≡◌, refl, subst, ◌∙◌, ltb-false, lt→ltb, ok, err, length, All}
use swu_go.Prelude.Bytes.{Bytes, IsByte, xor_front}
use swu_go.Eap.Auts.{decode_sqn}
use swu_go.Crypto.Milenage.{
  AkaError, out_of_sync, f2f5, f3, f4, f5_star, generate_autn, verify_autn,
}
use swu_go.Crypto.Milenage.Challenge.{IsBlockCipher, verify_autn-generate_autn, generate_auts_ok}
use swu_go.Sim.Soft.{SoftSim, calculate_aka}
use swu_go.Sim.Soft.Replay.{hidden, learn_ok}

module _ (aes : Bytes → Bytes → Bytes) (s : SoftSim) (rand autn : Bytes) where
  calculate_aka_ok :
      (keys : Bytes × Bytes × Bytes) (pair : Bytes × Bytes)
      → verify_autn aes s.milenage rand autn s.sqn ≡ ok keys
      → f2f5 aes s.milenage rand ≡ ok pair
      → calculate_aka aes s rand autn
        ≡ (record s { sqn = decode_sqn (hidden aes s.milenage rand autn) + 1 }, ok keys)
  unfolding calculate_aka
  calculate_aka_ok keys pair h k = rw (h, calculate_aka) (rw (learn_ok aes s rand autn pair k) refl)

  calculate_aka_err :
      (e : AkaError)
      → verify_autn aes s.milenage rand autn s.sqn ≡ err e
      → calculate_aka aes s rand autn ≡ (s, err e)
  unfolding calculate_aka
  calculate_aka_err e h = rw (h, calculate_aka) refl

module _ (aes : Bytes → Bytes → Bytes) (cipher : IsBlockCipher aes) (s : SoftSim)
    (fits : length s.milenage.opc ≡ 16) where
  -- The network has the key and the constant of the SIM, and made the challenge.
  pub record IsMet (rand sqn amf : Bytes) : Type 0 where
    pub autn : Bytes
    pub made : generate_autn aes s.milenage rand sqn amf ≡ ok autn
    pub res : Bytes
    pub ak : Bytes
    pub ck : Bytes
    pub ik : Bytes
    pub auts : Bytes
    pub ak_star : Bytes
    pub by_f2f5 : f2f5 aes s.milenage rand ≡ ok (res, ak)
    pub by_f3 : f3 aes s.milenage rand ≡ ok ck
    pub by_f4 : f4 aes s.milenage rand ≡ ok ik
    pub by_f5_star : f5_star aes s.milenage rand ≡ ok ak_star
    pub in_sync :
        s.sqn ≤ decode_sqn sqn
        → calculate_aka aes s rand autn ≡ (record s { sqn = decode_sqn sqn + 1 }, ok (res, ck, ik))
    pub out_of_step :
        decode_sqn sqn < s.sqn → calculate_aka aes s rand autn ≡ (s, err (out_of_sync auts))
    pub length-auts : length auts ≡ 14
    pub own_number : xor_front 6 auts ak_star ≡ sqn

  -- A network that has the key and the OPc of a SIM makes a challenge out of a RAND of 16 bytes, SQN of 6
  -- and AMF of 2. If its number is at least the SIM's, the SIM answers with RES, CK and IK as the network
  -- has them, and then expects the next number. If it is below, the SIM stays as it was, and gives AUTS of
  -- 14 bytes, out of which AK* opens the network's own number again, and not the SIM's.
  pub calculate_aka-generate_autn :
      (rand sqn amf : Bytes)
      → length rand ≡ 16
      → length sqn ≡ 6
      → length amf ≡ 2
      → All IsByte sqn
      → IsMet rand sqn amf
  calculate_aka-generate_autn rand sqn amf h k l bytes =
      let c = verify_autn-generate_autn aes cipher s.milenage fits rand sqn amf s.sqn h k l bytes in
      let (auts, ak_star, auts_eq, star_eq, size, opened) =
        generate_auts_ok aes cipher s.milenage fits rand sqn h k bytes in
      let read : hidden aes s.milenage rand c.autn ≡ sqn = rw (c.by_f2f5, hidden) c.concealed in
      let same : c.auts ≡ auts = cc (c.by_auts, auts_eq) in
      record {
        autn = c.autn;
        made = c.made;
        res = c.res;
        ak = c.ak;
        ck = c.ck;
        ik = c.ik;
        auts = auts;
        ak_star = ak_star;
        by_f2f5 = c.by_f2f5;
        by_f3 = c.by_f3;
        by_f4 = c.by_f4;
        by_f5_star = star_eq;
        in_sync = λ new.
            subst
              (λ n.
                calculate_aka aes s rand c.autn
                ≡ (record s { sqn = decode_sqn n + 1 }, ok (c.res, c.ck, c.ik)))
              read
              (calculate_aka_ok aes s rand c.autn (c.res, c.ck, c.ik) (c.res, c.ak)
                (c.verified ∙ rw (ltb-false (decode_sqn sqn) s.sqn new) refl) c.by_f2f5);
        out_of_step = λ old.
            calculate_aka_err aes s rand c.autn (out_of_sync auts)
              (c.verified ∙ rw (lt→ltb (decode_sqn sqn) s.sqn old, same) refl);
        length-auts = size;
        own_number = opened;
      }
