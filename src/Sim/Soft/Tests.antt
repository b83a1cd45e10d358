-- ===== src/Sim/Soft/Tests.antt =====
-- softsim.go: the theorems at concrete inputs.
use swu_go.Prelude.{◌≡◌, refl, List, [], ◌∷◌, ok, replicate, arith}
use swu_go.Prelude.Bytes.{Bytes}
use swu_go.Eap.Auts.{decode_sqn}
use swu_go.Crypto.Milenage.Tests.{
  toy_aes, toy_aes-IsBlockCipher, toy_milenage, challenge, number, amf,
}
use swu_go.Crypto.Milenage.{
  generate_autn, generate_auts, f5_star, verify_autn, f1, f2f5, f3, f4, same_front, answer, output,
  temp, rotate,
}
use swu_go.Sim.Soft.{SoftSim, calculate_aka, learn}
use swu_go.Sim.Soft.Replay.{accepted, IsRising, accepted-IsRising}
use swu_go.Sim.Soft.Resync.{IsMet, calculate_aka-generate_autn}

abbrev card : SoftSim
card = record { milenage = toy_milenage; sqn = 200 }

calculate_aka-generate_autn_example :
    IsMet toy_aes toy_aes-IsBlockCipher card refl challenge number amf
calculate_aka-generate_autn_example =
    calculate_aka-generate_autn toy_aes toy_aes-IsBlockCipher card refl challenge number amf refl
      refl refl (omega arith)

-- The challenge with the number 263.
abbrev autn : Bytes
autn = 2 ∷ 1 ∷ 0 ∷ 15 ∷ 7 ∷ 2 ∷ 128 ∷ 0 ∷ 10 ∷ 9 ∷ 8 ∷ 23 ∷ 13 ∷ 8 ∷ 140 ∷ 23 ∷ []

abbrev history : List (Bytes × Bytes)
history = (challenge, replicate 16 0) ∷ (challenge, autn) ∷ (challenge, autn) ∷ []

autn_made : generate_autn toy_aes toy_milenage challenge number amf ≡ ok autn
unfolding generate_autn f1 f2f5 output temp rotate
autn_made = refl

-- The second time it is refused.
answered_once : accepted toy_aes card history ≡ (challenge, autn) ∷ []
unfolding calculate_aka verify_autn answer generate_auts learn f1 f2f5 f3 f4 f5_star output temp
    rotate same_front decode_sqn
answered_once = refl

accepted-IsRising_example : IsRising toy_aes toy_milenage 200 (accepted toy_aes card history)
accepted-IsRising_example = accepted-IsRising toy_aes card history
