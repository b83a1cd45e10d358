-- ===== src/Crypto/Milenage/Tests.antt =====
-- milenage.go: runs, and the theorems at concrete inputs, with a toy cipher for AES.
use swu_go.Prelude.{
  ◌+◌, ◌%◌, ◌≡◌, ◌≢◌, refl, [], ◌∷◌, ◌++◌, ok, length, take, slice_at, replicate, arith,
}
use swu_go.Prelude.Bytes.{Bytes}
use swu_go.Crypto.Milenage.{Milenage, rotate, temp, output, f1, f2f5, f3, f4, f5_star}
use swu_go.Crypto.Milenage.Blocks.{cycle}
use swu_go.Crypto.Milenage.Challenge.{IsBlockCipher}
use swu_go.Crypto.Milenage.Standard.{
  standard_out, standard_out1, f2f5-standard_out, f1-standard_out1, standard_temp,
}

-- The key and the block, added byte by byte, each byte one higher.
abbrev pub bump : Bytes → Bytes
bump [] = []
bump (b ∷ bs) = ((b + 1) % 256) ∷ bump bs

length-bump : (xs : Bytes) → length (bump xs) ≡ length xs
length-bump [] = refl
length-bump (x ∷ xs) = omega (arith, length-bump xs)

abbrev pub toy_aes : Bytes → Bytes → Bytes
toy_aes k b = bump b

pub toy_aes-IsBlockCipher : IsBlockCipher toy_aes
toy_aes-IsBlockCipher k b h = omega (arith, length-bump b)

abbrev pub toy_milenage : Milenage
toy_milenage = record { k = replicate 16 1; op = replicate 16 2; opc = replicate 15 3 ++ (9 ∷ []) }

abbrev pub challenge : Bytes
challenge = 1 ∷ 2 ∷ 3 ∷ 4 ∷ 5 ∷ 6 ∷ 7 ∷ 8 ∷ 9 ∷ 10 ∷ 11 ∷ 12 ∷ 13 ∷ 14 ∷ 15 ∷ 16 ∷ []

abbrev pub number : Bytes
number = 0 ∷ 0 ∷ 0 ∷ 0 ∷ 1 ∷ 7 ∷ []

abbrev pub amf : Bytes
amf = 128 ∷ 0 ∷ []

f2f5-standard_out_example :
    let out = standard_out toy_aes toy_aes-IsBlockCipher toy_milenage refl challenge in
    (f2f5 toy_aes toy_milenage challenge ≡ ok (slice_at 8 8 (out 0 1), take 6 (out 0 1)))
    × (f3 toy_aes toy_milenage challenge ≡ ok (out 32 2))
    × (f4 toy_aes toy_milenage challenge ≡ ok (out 64 4))
    × (f5_star toy_aes toy_milenage challenge ≡ ok (take 6 (out 96 8)))
f2f5-standard_out_example =
    f2f5-standard_out toy_aes toy_aes-IsBlockCipher toy_milenage refl challenge refl

f1-standard_out1_example :
    let out =
      standard_out1 toy_aes toy_aes-IsBlockCipher toy_milenage refl
        (cycle 64 (standard_temp toy_aes toy_aes-IsBlockCipher toy_milenage refl challenge))
        number
        amf in
    f1 toy_aes toy_milenage challenge number amf ≡ ok (take 8 out, slice_at 8 8 out)
f1-standard_out1_example =
    f1-standard_out1 toy_aes toy_aes-IsBlockCipher toy_milenage refl challenge number amf refl refl
      refl

-- MAC-A of the standard is another one.
another_mac :
    let out =
      standard_out1 toy_aes toy_aes-IsBlockCipher toy_milenage refl
        (standard_temp toy_aes toy_aes-IsBlockCipher toy_milenage refl challenge)
        number
        amf in
    f1 toy_aes toy_milenage challenge number amf ≢ ok (take 8 out, slice_at 8 8 out)
unfolding f1 output temp rotate
another_mac e = cc
