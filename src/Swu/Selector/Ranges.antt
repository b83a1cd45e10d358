-- ===== src/Swu/Selector/Ranges.antt =====
-- selector.go: a selector as a range of numbers, for addresses of 4 and of 16 bytes alike.
use swu_go.Prelude.{
  eq_of_test, ℕ, suc, ◌+◌, ◌*◌, ◌^◌, ◌≤◌, ◌<◌, ◌≡◌, refl, ap, sym, ◌∙◌, inl, inr, Bool, false,
  Bool-cases, [], ◌∷◌, ltb, leb, ltb→lt, leb-true, leb-false, ◌==◌, if◌then◌else◌, length, All,
  arith,
}
use swu_go.Prelude.Bytes.{Bytes, IsByte, u32_at}
use native.Mathlib.Nat.{pow-suc, mul-le-mul_right}
use swu_go.Swu.Selector.{bytes_le}

-- A big-endian number.
abbrev pub be_value : Bytes → ℕ
be_value [] = 0
be_value (x ∷ xs) = x * 256 ^ length xs + be_value xs

pub be_value_lt : (xs : Bytes) → All IsByte xs → be_value xs < 256 ^ length xs
be_value_lt [] h = omega arith
be_value_lt (x ∷ xs) (hx, h) =
    let top : x * 256 ^ length xs ≤ 255 * 256 ^ length xs =
      mul-le-mul_right (256 ^ length xs) (omega arith) in
    omega (arith, be_value_lt xs h, pow-suc 256 (length xs))

-- A smaller first byte decides.
first_byte : (x y p a b : ℕ) → x < y → a < p → x * p + a < y * p + b
first_byte x y p a b h ha =
    let step : suc x * p ≤ y * p = mul-le-mul_right p h in omega (arith, step)

by_first_byte :
    (x y p a b : ℕ) (rest : Bool)
    → a < p
    → b < p
    → rest ≡ leb a b
    → (if x == y then rest else ltb x y) ≡ leb (x * p + a) (y * p + b)
by_first_byte x y p a b rest ha hb e = elim (Bool-cases (x == y)) [
  | inl same ↦
      let k : x * p ≡ y * p = ap (λ z. z * p) (eq_of_test x y same) in
      rw same (e ∙ shift (x * p) (y * p) a b k)
  | inr other ↦ rw other (elim (Bool-cases (ltb x y)) [
    | inl below ↦ rw below (
        sym (leb-true (x * p + a) (y * p + b) (lt→le (first_byte x y p a b (ltb→lt x y below) ha))))
    | inr above ↦ rw above (
        sym
          (leb-false (x * p + a) (y * p + b) (first_byte y x p b a (above_of x y other above) hb)))
  ])
]
  where
    shift : (u v a b : ℕ) → u ≡ v → leb a b ≡ leb (u + a) (v + b)
    shift u v a b h = ground arith

    lt→le : {m n : ℕ} → m < n → m ≤ n
    lt→le h = omega arith

    above_of : (x y : ℕ) → (x == y) ≡ false → ltb x y ≡ false → y < x
    above_of x y h k = ground arith

pub bytes_le-be_value :
    (xs ys : Bytes)
    → length xs ≡ length ys
    → All IsByte xs
    → All IsByte ys
    → bytes_le xs ys ≡ leb (be_value xs) (be_value ys)
bytes_le-be_value [] [] e hx hy = refl
bytes_le-be_value [] (y ∷ ys) e hx hy = absurd (omega arith)
bytes_le-be_value (x ∷ xs) [] e hx hy = absurd (omega arith)
bytes_le-be_value (x ∷ xs) (y ∷ ys) e (hx, hxs) (hy, hys) =
    let same : length xs ≡ length ys = omega arith in
    rw (← same) (
      by_first_byte x y (256 ^ length xs) (be_value xs) (be_value ys) (bytes_le xs ys)
        (be_value_lt xs hxs) (rw same (be_value_lt ys hys)) (bytes_le-be_value xs ys same hxs hys))

pub u32-be_value : (xs : Bytes) → length xs ≡ 4 → u32_at 0 xs ≡ be_value xs
u32-be_value (a ∷ b ∷ c ∷ d ∷ []) h = omega arith
u32-be_value [] h = absurd (omega arith)
u32-be_value (a ∷ []) h = absurd (omega arith)
u32-be_value (a ∷ b ∷ []) h = absurd (omega arith)
u32-be_value (a ∷ b ∷ c ∷ []) h = absurd (omega arith)
u32-be_value (a ∷ b ∷ c ∷ d ∷ e ∷ xs) h = absurd (omega arith)
