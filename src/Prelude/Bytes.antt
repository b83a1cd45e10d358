-- ===== src/Prelude/Bytes.antt =====
-- Byte strings, and encoding/binary's big-endian words.
use native.Mathlib.Nat.{pow-suc}
use swu_go.Prelude.{
  ◌≤◌, refl, ap, length, All, ℕ, zero, suc, ◌+◌, ◌*◌, ◌/◌, ◌%◌, ◌^◌, ◌<◌, ◌≡◌, List, [], ◌∷◌, ◌++◌,
  get_or, arith,
}

abbrev pub Bytes : Type 0
Bytes = List ℕ

abbrev pub IsByte : ℕ → Type 0
IsByte b = b < 256

abbrev pub byte_at : ℕ → Bytes → ℕ
byte_at i xs = get_or xs i 0

-- binary.BigEndian.PutUint16 and its kin, as the bytes that they write.
abbrev pub be16 : ℕ → Bytes
be16 v = (v / 256 % 256) ∷ (v % 256) ∷ []

abbrev pub be32 : ℕ → Bytes
be32 v = be16 (v / 2 ^ 16) ++ be16 (v % 2 ^ 16)

abbrev pub be64 : ℕ → Bytes
be64 v = be32 (v / 2 ^ 32) ++ be32 (v % 2 ^ 32)

-- binary.BigEndian.Uint16 and its kin, which read the front of their argument.
abbrev pub u16 : Bytes → ℕ
u16 xs = byte_at 0 xs * 256 + byte_at 1 xs

abbrev pub u16_at : ℕ → Bytes → ℕ
u16_at i xs = byte_at i xs * 256 + byte_at (suc i) xs

abbrev pub word16 : ℕ → ℕ → ℕ
word16 hi lo = hi * 256 + lo

abbrev pub u32_at : ℕ → Bytes → ℕ
u32_at i xs = u16_at i xs * 2 ^ 16 + u16_at (suc (suc i)) xs

abbrev pub u64_at : ℕ → Bytes → ℕ
u64_at i xs = u32_at i xs * 2 ^ 32 + u32_at (suc (suc (suc (suc i)))) xs

pub u16-be16 : (v : ℕ) → v < 2 ^ 16 → u16_at 0 (be16 v) ≡ v
u16-be16 v h = omega arith

pub u32-be32 : (v : ℕ) → v < 2 ^ 32 → u32_at 0 (be32 v) ≡ v
u32-be32 v h = omega arith

pub u64-be64 : (v : ℕ) → v < 2 ^ 64 → u64_at 0 (be64 v) ≡ v
u64-be64 v h = omega (arith, u32-be32 (v / 2 ^ 32), u32-be32 (v % 2 ^ 32))

-- Go's `a ^ b` on words of `n` bits.
abbrev pub xor : ℕ → ℕ → ℕ → ℕ
xor zero a b = 0
xor (suc n) a b = (a + b) % 2 + 2 * xor n (a / 2) (b / 2)

pub xor_twice : (n a b : ℕ) → a < 2 ^ n → xor n (xor n a b) b ≡ a
xor_twice zero a b h = omega arith
xor_twice (suc n) a b h =
    let r = xor n (a / 2) (b / 2) in
    let half : ((a + b) % 2 + 2 * r) / 2 ≡ r = omega arith in
    let small : a / 2 < 2 ^ n = omega (arith, pow-suc 2 n) in
    rw (half, xor_twice n (a / 2) (b / 2) small) (omega arith)

-- `for i := 0; i < n; i++ { out[i] = a[i] ^ b[i] }`, for `n` at most the lengths.
abbrev pub xor_front : ℕ → Bytes → Bytes → Bytes
xor_front zero xs ys = []
xor_front (suc n) [] ys = []
xor_front (suc n) (x ∷ xs) [] = []
xor_front (suc n) (x ∷ xs) (y ∷ ys) = xor 8 x y ∷ xor_front n xs ys

pub length-xor_front :
    (n : ℕ) (xs ys : Bytes) → n ≤ length xs → n ≤ length ys → length (xor_front n xs ys) ≡ n
length-xor_front zero xs ys h k = refl
length-xor_front (suc n) [] ys h k = absurd (omega arith)
length-xor_front (suc n) (x ∷ xs) [] h k = absurd (omega arith)
length-xor_front (suc n) (x ∷ xs) (y ∷ ys) h k =
    ap suc (length-xor_front n xs ys (omega arith) (omega arith))

-- The same bytes once more give the first ones back, whatever follows.
pub xor_front_twice :
    (n : ℕ) (xs ys rest : Bytes)
    → n ≡ length xs
    → n ≤ length ys
    → All IsByte xs
    → xor_front n (xor_front n xs ys ++ rest) ys ≡ xs
xor_front_twice zero [] ys rest e k h = refl
xor_front_twice zero (x ∷ xs) ys rest e k h = absurd (omega arith)
xor_front_twice (suc n) [] ys rest e k h = absurd (omega arith)
xor_front_twice (suc n) (x ∷ xs) [] rest e k h = absurd (omega arith)
xor_front_twice (suc n) (x ∷ xs) (y ∷ ys) rest e k (hx, h) =
    rw (xor_twice 8 x y hx, xor_front_twice n xs ys rest (omega arith) (omega arith) h) refl

-- `copy(buf[n:], bs)`: what is behind the end of the buffer is not kept.
unfoldable pub overwrite : ℕ → Bytes → Bytes → Bytes
overwrite zero [] buf = buf
overwrite zero (b ∷ bs) [] = []
overwrite zero (b ∷ bs) (x ∷ buf) = b ∷ overwrite zero bs buf
overwrite (suc n) bs [] = []
overwrite (suc n) bs (x ∷ buf) = x ∷ overwrite n bs buf
