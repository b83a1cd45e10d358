-- ===== src/Sim/Soft.antt =====
-- pkg/sim/softsim.go: a SIM in software.
pub mod Replay
pub mod Resync
mod Tests
use swu_go.Prelude.{◌+◌, ◌%◌, ◌^◌, ℕ, Bool, Result, ok, err, panic, stuck, List, [], ◌∷◌}
use swu_go.Prelude.Bytes.{Bytes, xor_front}
use swu_go.Eap.Auts.{decode_sqn}
use swu_go.Crypto.Milenage.{Milenage, AkaError, new_milenage, f2f5, verify_autn}

-- SoftSIM, without the IMSI.
pub record SoftSim : Type 0 where
  pub milenage : Milenage
  pub sqn : ℕ

module _ (aes : Bytes → Bytes → Bytes) where
  unfoldable pub new_soft_sim : Bytes → Bytes → Bool → Result AkaError SoftSim
  new_soft_sim k op use_opc = elim (new_milenage aes k op use_opc) [
    | ok m ↦ ok (record { milenage = m; sqn = 0 })
    | err e ↦ err e
    | panic ↦ panic
    | stuck ↦ stuck
  ]

  -- The number of the challenge, read once more; the error of F2F5 is not looked at, and AK then nil.
  unfoldable pub learn : SoftSim → Bytes → Bytes → Result AkaError SoftSim
  learn s rand autn = elim (f2f5 aes s.milenage rand) [
    | ok (res, ak) ↦ ok (record s { sqn = (decode_sqn (xor_front 6 autn ak) + 1) % 2 ^ 64 })
    | err e ↦ panic
    | panic ↦ panic
    | stuck ↦ stuck
  ]

  -- CalculateAKA: the SIM after it, and RES, CK and IK; AUTS comes with the error.
  unfoldable pub calculate_aka :
      SoftSim → Bytes → Bytes → SoftSim × Result AkaError (Bytes × Bytes × Bytes)
  calculate_aka s rand autn = elim (verify_autn aes s.milenage rand autn s.sqn) [
    | err e ↦ (s, err e)
    | panic ↦ (s, panic)
    | stuck ↦ (s, stuck)
    | ok keys ↦ elim (learn s rand autn) [
      | ok s' ↦ (s', ok keys)
      | err e ↦ (s, err e)
      | panic ↦ (s, panic)
      | stuck ↦ (s, stuck)
    ]
  ]
