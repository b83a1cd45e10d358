-- ===== src/Prelude/Lists.antt =====
-- Lists measured, cut and indexed by native numbers, under the library's names.
use Prim.Native.Nat.{ℕ, zero, suc, ◌+◌, ◌-◌, ◌≤◌, ◌<◌, min}
use mathlib.Core.Path.{◌≡◌, refl, ap}
use mathlib.Core.List.{List, [], ◌∷◌, ◌++◌}
use mathlib.Core.Bool.{Bool, true, false}
use native.Mathlib.Omega.{arith}
use native.Mathlib.Nat.{suc-add, zero-add}

module _ {ℓ} {A : Type ℓ} where
  abbrev pub length : List A → ℕ
  length [] = 0
  length (x ∷ xs) = suc (length xs)

  abbrev pub get_or : List A → ℕ → A → A
  get_or [] i d = d
  get_or (x ∷ xs) zero d = x
  get_or (x ∷ xs) (suc i) d = get_or xs i d

  abbrev pub take : ℕ → List A → List A
  take zero xs = []
  take (suc n) [] = []
  take (suc n) (x ∷ xs) = x ∷ take n xs

  abbrev pub drop : ℕ → List A → List A
  drop zero xs = xs
  drop (suc n) [] = []
  drop (suc n) (x ∷ xs) = drop n xs

  abbrev pub replicate : ℕ → A → List A
  replicate zero a = []
  replicate (suc n) a = a ∷ replicate n a

  -- The Go slice `xs[a:a+n]`, for `a + n` at most the length.
  abbrev pub slice_at : ℕ → ℕ → List A → List A
  slice_at a n xs = take n (drop a xs)

  -- The test `len(xs) < n`, which computes on a list whose first `n` elements are known.
  abbrev pub shorter : List A → ℕ → Bool
  shorter xs zero = false
  shorter [] (suc n) = true
  shorter (x ∷ xs) (suc n) = shorter xs n

  abbrev pub All {κ} : (A → Type κ) → List A → Type κ
  All P [] = Unit {κ}
  All P (x ∷ xs) = P x × All P xs

  pub length-append : (xs ys : List A) → length (xs ++ ys) ≡ length xs + length ys
  length-append [] ys = omega arith
  length-append (x ∷ xs) ys = omega (arith, length-append xs ys)

  pub take-append-drop : (n : ℕ) (xs : List A) → take n xs ++ drop n xs ≡ xs
  take-append-drop zero xs = refl
  take-append-drop (suc n) [] = refl
  take-append-drop (suc n) (x ∷ xs) = ap (λ r. x ∷ r) (take-append-drop n xs)

  pub length-take : (n : ℕ) (xs : List A) → length (take n xs) ≡ min n (length xs)
  length-take zero xs = omega arith
  length-take (suc n) [] = omega arith
  length-take (suc n) (x ∷ xs) = omega (arith, length-take n xs)

  pub length-drop : (n : ℕ) (xs : List A) → length (drop n xs) ≡ length xs - n
  length-drop zero xs = omega arith
  length-drop (suc n) [] = omega arith
  length-drop (suc n) (x ∷ xs) = omega (arith, length-drop n xs)

  pub length-replicate : (n : ℕ) (a : A) → length (replicate n a) ≡ n
  length-replicate zero a = refl
  length-replicate (suc n) a = ap suc (length-replicate n a)

  pub take-length-append : (xs ys : List A) → take (length xs) (xs ++ ys) ≡ xs
  take-length-append [] ys = refl
  take-length-append (x ∷ xs) ys = ap (λ r. x ∷ r) (take-length-append xs ys)

  pub drop-length-append : (xs ys : List A) → drop (length xs) (xs ++ ys) ≡ ys
  drop-length-append [] ys = refl
  drop-length-append (x ∷ xs) ys = drop-length-append xs ys

  pub take-length : (xs : List A) → take (length xs) xs ≡ xs
  take-length [] = refl
  take-length (x ∷ xs) = ap (λ r. x ∷ r) (take-length xs)

  pub shorter-false : (xs : List A) (n : ℕ) → n ≤ length xs → shorter xs n ≡ false
  shorter-false xs zero h = refl
  shorter-false [] (suc n) h = absurd (omega arith)
  shorter-false (x ∷ xs) (suc n) h = shorter-false xs n (omega arith)

  pub shorter-true : (xs : List A) (n : ℕ) → length xs < n → shorter xs n ≡ true
  shorter-true xs zero h = absurd (omega arith)
  shorter-true [] (suc n) h = refl
  shorter-true (x ∷ xs) (suc n) h = shorter-true xs n (omega arith)

  pub shorter→lt : (xs : List A) (n : ℕ) → shorter xs n ≡ true → length xs < n
  shorter→lt xs zero h = cc
  shorter→lt [] (suc n) h = omega arith
  shorter→lt (x ∷ xs) (suc n) h = omega (arith, shorter→lt xs n h)

  pub shorter→le : (xs : List A) (n : ℕ) → shorter xs n ≡ false → n ≤ length xs
  shorter→le xs zero h = omega arith
  shorter→le [] (suc n) h = cc
  shorter→le (x ∷ xs) (suc n) h = omega (arith, shorter→le xs n h)

  pub take-append_eq : (n : ℕ) (xs ys : List A) → n ≡ length xs → take n (xs ++ ys) ≡ xs
  take-append_eq n xs ys h = rw h (take-length-append xs ys)

  pub drop-append_eq : (n : ℕ) (xs ys : List A) → n ≡ length xs → drop n (xs ++ ys) ≡ ys
  drop-append_eq n xs ys h = rw h (drop-length-append xs ys)

  pub take_all : (n : ℕ) (xs : List A) → n ≡ length xs → take n xs ≡ xs
  take_all n xs h = rw h (take-length xs)

  pub drop_all : (n : ℕ) (xs : List A) → length xs ≤ n → drop n xs ≡ []
  drop_all zero [] h = refl
  drop_all zero (x ∷ xs) h = absurd (omega arith)
  drop_all (suc n) [] h = refl
  drop_all (suc n) (x ∷ xs) h = drop_all n xs (omega arith)

  pub drop-drop : (a n : ℕ) (xs : List A) → drop (a + n) xs ≡ drop n (drop a xs)
  drop-drop zero n xs = rw (zero-add n) refl
  drop-drop (suc a) zero [] = rw (suc-add a 0) refl
  drop-drop (suc a) (suc n) [] = rw (suc-add a (suc n)) refl
  drop-drop (suc a) n (x ∷ xs) = rw (suc-add a n) (drop-drop a n xs)

  -- A slice, and all that is behind it.
  pub slice-drop : (a n : ℕ) (xs : List A) → slice_at a n xs ++ drop (a + n) xs ≡ drop a xs
  slice-drop a n xs = rw (drop-drop a n xs) (take-append-drop n (drop a xs))
