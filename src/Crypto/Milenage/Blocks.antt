-- ===== src/Crypto/Milenage/Blocks.antt =====
-- Blocks of bytes: the rotations of milenage.go by whole bytes, and the addition modulo 2.
use native.Mathlib.Nat.{zero-add, suc-add, pow-suc}
use swu_go.Prelude.{
  ℕ, zero, suc, ◌≤◌, ◌<◌, ◌≡◌, refl, sym, ap, ◌∙◌, ◌+◌, ◌-◌, ◌*◌, ◌/◌, ◌%◌, ◌^◌, [], ◌∷◌, ◌++◌,
  length, take, drop, slice_at, replicate, length-drop, take_all, take-append_eq, drop-append_eq,
  All, arith,
}
use swu_go.Prelude.Bytes.{Bytes, IsByte, byte_at, xor, xor_front}
use swu_go.Crypto.Milenage.{rotate}

-- rot(x, r) for whole bytes: what falls off at the front comes back at the end.
abbrev pub cycle : ℕ → Bytes → Bytes
cycle r x = drop (r / 8) x ++ take (r / 8) x

-- The block that is zero but for its last byte.
abbrev pub constant : ℕ → Bytes
constant c = replicate 15 0 ++ (c ∷ [])

bytes_from : ℕ → ℕ → Bytes → Bytes
bytes_from zero i block = []
bytes_from (suc n) i block = byte_at i block ∷ bytes_from n (suc i) block

bytes_from-cons : (n i b : ℕ) (bs : Bytes) → bytes_from n (suc i) (b ∷ bs) ≡ bytes_from n i bs
unfolding bytes_from
bytes_from-cons zero i b bs = refl
bytes_from-cons (suc n) i b bs = ap (λ r. byte_at i bs ∷ r) (bytes_from-cons n (suc i) b bs)

bytes_from-slice_at :
    (i n : ℕ) (block : Bytes) → i + n ≤ length block → bytes_from n i block ≡ slice_at i n block
unfolding bytes_from
bytes_from-slice_at zero zero block h = refl
bytes_from-slice_at zero (suc n) [] h = absurd (omega arith)
bytes_from-slice_at zero (suc n) (b ∷ bs) h =
    ap (λ r. b ∷ r) (bytes_from-cons n 0 b bs ∙ bytes_from-slice_at zero n bs (omega arith))
bytes_from-slice_at (suc i) zero block h = refl
bytes_from-slice_at (suc i) (suc n) [] h = absurd (omega arith)
bytes_from-slice_at (suc i) (suc n) (b ∷ bs) h =
    bytes_from-cons (suc n) i b bs ∙ bytes_from-slice_at i (suc n) bs (omega arith)

-- A block, cut at `s`, from its bytes.
bytes-cycle :
    (s : ℕ) (block : Bytes)
    → s ≤ 16
    → length block ≡ 16
    → bytes_from (16 - s) s block ++ bytes_from s 0 block ≡ drop s block ++ take s block
bytes-cycle s block h k =
    rw
      (
        bytes_from-slice_at s (16 - s) block (omega arith),
        bytes_from-slice_at 0 s block (omega arith),
        take_all (16 - s) (drop s block) (omega (arith, length-drop s block)),
      )
      refl

pub rotate-cycle :
    (block : Bytes)
    → length block ≡ 16
    → (rotate block 32 ≡ cycle 32 block)
      × (rotate block 64 ≡ cycle 64 block)
      × (rotate block 96 ≡ cycle 96 block)
unfolding rotate bytes_from
rotate-cycle block h = (
  bytes-cycle 4 block (omega arith) h,
  bytes-cycle 8 block (omega arith) h,
  bytes-cycle 12 block (omega arith) h,
)

xor_lt : (n a b : ℕ) → xor n a b < 2 ^ n
xor_lt zero a b = omega arith
xor_lt (suc n) a b = omega (arith, xor_lt n (a / 2) (b / 2), pow-suc 2 n)

xor_zero : (n a : ℕ) → a < 2 ^ n → xor n a 0 ≡ a
xor_zero zero a h = omega arith
xor_zero (suc n) a h =
    let half : a / 2 < 2 ^ n = omega (arith, pow-suc 2 n) in
    rw (xor_zero n (a / 2) half) (omega arith)

pub xor_front-IsByte : (n : ℕ) (xs ys : Bytes) → All IsByte (xor_front n xs ys)
xor_front-IsByte zero xs ys = tt
xor_front-IsByte (suc n) [] ys = tt
xor_front-IsByte (suc n) (x ∷ xs) [] = tt
xor_front-IsByte (suc n) (x ∷ xs) (y ∷ ys) = (xor_lt 8 x y, xor_front-IsByte n xs ys)

take-IsByte : (n : ℕ) (xs : Bytes) → All IsByte xs → All IsByte (take n xs)
take-IsByte zero xs h = tt
take-IsByte (suc n) [] h = tt
take-IsByte (suc n) (x ∷ xs) (b, h) = (b, take-IsByte n xs h)

drop-IsByte : (n : ℕ) (xs : Bytes) → All IsByte xs → All IsByte (drop n xs)
drop-IsByte zero xs h = h
drop-IsByte (suc n) [] h = tt
drop-IsByte (suc n) (x ∷ xs) (b, h) = drop-IsByte n xs h

append-IsByte : (xs ys : Bytes) → All IsByte xs → All IsByte ys → All IsByte (xs ++ ys)
append-IsByte [] ys h k = k
append-IsByte (x ∷ xs) ys (b, h) k = (b, append-IsByte xs ys h k)

pub cycle-IsByte : (r : ℕ) (xs : Bytes) → All IsByte xs → All IsByte (cycle r xs)
cycle-IsByte r xs h =
    append-IsByte (drop (r / 8) xs) (take (r / 8) xs) (drop-IsByte (r / 8) xs h)
      (take-IsByte (r / 8) xs h)

-- `tmp[15] ^= c` is the addition of the constant.
pub flip-constant :
    (n c : ℕ) (block : Bytes)
    → length block ≡ suc n
    → All IsByte block
    → take n block ++ (xor 8 (byte_at n block) c ∷ [])
      ≡ xor_front (suc n) block (replicate n 0 ++ (c ∷ []))
flip-constant n c [] h k = absurd (omega arith)
flip-constant zero c (b ∷ bs) h k = refl
flip-constant (suc n) c (b ∷ bs) h (hb, k) =
    rw (xor_zero 8 b hb) (ap (λ r. b ∷ r) (flip-constant n c bs (omega arith) k))

-- Addition of blocks, byte by byte.
xor_regroup : (n a b c : ℕ) → xor n (xor n a b) c ≡ xor n a (xor n c b)
xor_regroup zero a b c = refl
xor_regroup (suc n) a b c =
    let r = xor n (a / 2) (b / 2) in
    let s = xor n (c / 2) (b / 2) in
    let left : ((a + b) % 2 + 2 * r) / 2 ≡ r = omega arith in
    let right : ((c + b) % 2 + 2 * s) / 2 ≡ s = omega arith in
    rw (left, right, xor_regroup n (a / 2) (b / 2) (c / 2)) (omega arith)

pub xor_front_regroup :
    (n : ℕ) (xs ys zs : Bytes)
    → xor_front n (xor_front n xs ys) zs ≡ xor_front n xs (xor_front n zs ys)
xor_front_regroup zero xs ys zs = refl
xor_front_regroup (suc n) [] ys zs = refl
xor_front_regroup (suc n) (x ∷ xs) [] [] = refl
xor_front_regroup (suc n) (x ∷ xs) [] (z ∷ zs) = refl
xor_front_regroup (suc n) (x ∷ xs) (y ∷ ys) [] = refl
xor_front_regroup (suc n) (x ∷ xs) (y ∷ ys) (z ∷ zs) =
    rw (xor_regroup 8 x y z) (ap (λ r. xor 8 x (xor 8 z y) ∷ r) (xor_front_regroup n xs ys zs))

take-xor_front :
    (j n : ℕ) (xs ys : Bytes)
    → j ≤ n
    → take j (xor_front n xs ys) ≡ xor_front j (take j xs) (take j ys)
take-xor_front zero n xs ys h = refl
take-xor_front (suc j) zero xs ys h = absurd (omega arith)
take-xor_front (suc j) (suc n) [] ys h = refl
take-xor_front (suc j) (suc n) (x ∷ xs) [] h = refl
take-xor_front (suc j) (suc n) (x ∷ xs) (y ∷ ys) h =
    ap (λ r. xor 8 x y ∷ r) (take-xor_front j n xs ys (omega arith))

xor_front_left : (n : ℕ) (ys : Bytes) → xor_front n [] ys ≡ []
xor_front_left zero ys = refl
xor_front_left (suc n) ys = refl

xor_front_right : (n : ℕ) (xs : Bytes) → xor_front n xs [] ≡ []
xor_front_right zero xs = refl
xor_front_right (suc n) [] = refl
xor_front_right (suc n) (x ∷ xs) = refl

drop-xor_front :
    (j n : ℕ) (xs ys : Bytes)
    → drop j (xor_front (j + n) xs ys) ≡ xor_front n (drop j xs) (drop j ys)
drop-xor_front zero n xs ys = rw (zero-add n) refl
drop-xor_front (suc j) n [] ys = rw (suc-add j n, xor_front_left n (drop (suc j) ys)) refl
drop-xor_front (suc j) n (x ∷ xs) [] = rw (suc-add j n, xor_front_right n (drop j xs)) refl
drop-xor_front (suc j) n (x ∷ xs) (y ∷ ys) = rw (suc-add j n) (drop-xor_front j n xs ys)

xor_front-append :
    (i n : ℕ) (xs ys xs' ys' : Bytes)
    → length xs ≡ i
    → length ys ≡ i
    → xor_front (i + n) (xs ++ xs') (ys ++ ys') ≡ xor_front i xs ys ++ xor_front n xs' ys'
xor_front-append zero n [] [] xs' ys' h k = rw (zero-add n) refl
xor_front-append zero n (x ∷ xs) ys xs' ys' h k = absurd (omega arith)
xor_front-append zero n [] (y ∷ ys) xs' ys' h k = absurd (omega arith)
xor_front-append (suc i) n [] ys xs' ys' h k = absurd (omega arith)
xor_front-append (suc i) n (x ∷ xs) [] xs' ys' h k = absurd (omega arith)
xor_front-append (suc i) n (x ∷ xs) (y ∷ ys) xs' ys' h k =
    rw (suc-add i n)
      (ap (λ r. xor 8 x y ∷ r) (xor_front-append i n xs ys xs' ys' (omega arith) (omega arith)))

-- The halves of two blocks, exchanged before or after the addition.
pub cycle-xor_front :
    (xs ys : Bytes)
    → length xs ≡ 16
    → length ys ≡ 16
    → cycle 64 (xor_front 16 xs ys) ≡ xor_front 16 (cycle 64 xs) (cycle 64 ys)
cycle-xor_front xs ys h k =
    rw (drop-xor_front 8 8 xs ys, take-xor_front 8 16 xs ys (omega arith))
      (sym (
        xor_front-append 8 8 (drop 8 xs) (drop 8 ys) (take 8 xs) (take 8 ys)
          (omega (arith, length-drop 8 xs)) (omega (arith, length-drop 8 ys))))

pub cycle-twice : (half : Bytes) → length half ≡ 8 → cycle 64 (half ++ half) ≡ half ++ half
cycle-twice half h =
    rw (drop-append_eq 8 half half (sym h), take-append_eq 8 half half (sym h)) refl
