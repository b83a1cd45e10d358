-- ===== src/Prelude/Parse.antt =====
-- The two loops by which the decoders read a list of items: until the input is used up, and a
-- stated number of times. `item` reads one item from the front and says how many bytes it took.
use swu_go.Prelude.Bytes.{Bytes}
use swu_go.Prelude.{
  ℕ, zero, suc, ◌≤◌, ◌<◌, ◌≡◌, ◌≢◌, Bool, true, false, if◌then◌else◌, take, refl, List, [], ◌∷◌,
  ◌++◌, append_assoc, Result, ok, err, panic, stuck, ◌>>=◌, length, drop, shorter, need,
  length-append, length-drop, drop-length-append, All, Returns, arith,
}

-- The encodings of the items, one after the other.
abbrev pub concat_map : {A : Type 0} → (A → Bytes) → List A → Bytes
concat_map enc [] = []
concat_map enc (a ∷ items) = enc a ++ concat_map enc items

-- `enc` and `item` agree on `a`, whatever follows.
abbrev pub ReadsBack : {E A : Type 0} → (Bytes → Result E (A × ℕ)) → (A → Bytes) → A → Type 0
ReadsBack item enc a =
    (0 < length (enc a)) × ((rest : Bytes) → item (enc a ++ rest) ≡ ok (a, length (enc a)))

-- An item that is read takes a byte at least; there is no panic, and the fuel does not run out.
abbrev pub Progress : {E A : Type 0} → Result E (A × ℕ) → Type 0
Progress (ok (a, n)) = 0 < n
Progress (err e) = Unit {0}
Progress panic = ⊥
Progress stuck = ⊥

module _ {E A : Type 0} where
  pub if-Progress :
      (b : Bool) (x y : Result E (A × ℕ)) → Progress x → Progress y → Progress (if b then x else y)
  if-Progress true x y h k = h
  if-Progress false x y h k = k

  -- A read behind the test for its length.
  pub guard-Progress :
      (n : ℕ) (buf : Bytes) (e : E) (r : Result E (A × ℕ))
      → Progress r
      → Progress (if shorter buf n then err e else need n buf r)
  guard-Progress n buf e r h = by_test (shorter buf n)
    where
      by_test : (b : Bool) → Progress (if b then err e else (if b then panic else r))
      by_test true = tt
      by_test false = h

  pub guard-Returns :
      (n : ℕ) (buf : Bytes) (e : E) (r : Result E A)
      → Returns r
      → Returns (if shorter buf n then err e else need n buf r)
  guard-Returns n buf e r h = by_test (shorter buf n)
    where
      by_test : (b : Bool) → Returns (if b then err e else (if b then panic else r))
      by_test true = tt
      by_test false = h

  -- An item of a stated length, whose decoder refuses the empty slice.
  pub sized-Progress :
      (decode : Bytes → Result E A) (n : ℕ) (buf : Bytes)
      → ((xs : Bytes) → Returns (decode xs))
      → ((a : A) → decode [] ≢ ok a)
      → Progress (decode (take n buf) >>= λ a. ok (a, n))
  sized-Progress decode zero buf r e = nothing (decode []) (r []) e
    where
      nothing :
          (m : Result E A) → Returns m → ((a : A) → m ≢ ok a) → Progress (m >>= λ a. ok (a, zero))
      nothing (ok a) h k = absurd (k a refl)
      nothing (err x) h k = tt
      nothing panic h k = h
      nothing stuck h k = h
  sized-Progress decode (suc n) buf r e = some_bytes (decode (take (suc n) buf)) (r _)
    where
      some_bytes : (m : Result E A) → Returns m → Progress (m >>= λ a. ok (a, suc n))
      some_bytes (ok a) h = omega arith
      some_bytes (err x) h = tt
      some_bytes panic h = h
      some_bytes stuck h = h

module _ {E A : Type 0} (item : Bytes → Result E (A × ℕ)) where
  -- `for offset < len(data) { ... }`
  unfoldable pub parse_all : ℕ → Bytes → Result E (List A)
  parse_all fuel [] = ok []
  parse_all zero (b ∷ bs) = stuck
  parse_all (suc fuel) (b ∷ bs) = do
    (a, n) ← item (b ∷ bs)
    items ← parse_all fuel (drop n (b ∷ bs))
    ok (a ∷ items)

  -- `for i := 0; i < count; i++ { ... }`
  unfoldable pub parse_n : ℕ → Bytes → Result E (List A)
  parse_n zero data' = ok []
  parse_n (suc count) data' = do
    (a, n) ← item data'
    items ← parse_n count (drop n data')
    ok (a ∷ items)

  parse_all_step :
      (fuel : ℕ) (xs rest : Bytes) (a : A)
      → 0 < length xs
      → item (xs ++ rest) ≡ ok (a, length xs)
      → parse_all (suc fuel) (xs ++ rest) ≡ (parse_all fuel rest >>= λ items. ok (a ∷ items))
  unfolding parse_all
  parse_all_step fuel [] rest a h e = absurd (omega arith)
  parse_all_step fuel (x ∷ xs) rest a h e = rw (e, drop-length-append xs rest)

  -- What was written item by item is read back, if the fuel covers the bytes.
  pub parse_all-concat_map :
      (enc : A → Bytes) (fuel : ℕ) (items : List A)
      → All (ReadsBack item enc) items
      → length (concat_map enc items) ≤ fuel
      → parse_all fuel (concat_map enc items) ≡ ok items
  unfolding parse_all
  parse_all-concat_map enc fuel [] h f = refl
  parse_all-concat_map enc zero (a ∷ items) h f =
      absurd (omega (arith, length-append (enc a) (concat_map enc items)))
  parse_all-concat_map enc (suc fuel) (a ∷ items) ((pos, back), h) f =
      rw (parse_all_step fuel (enc a) (concat_map enc items) a pos (back (concat_map enc items))) (
        rw (
          parse_all-concat_map enc fuel items h
            (omega (arith, length-append (enc a) (concat_map enc items)))))

  pub parse_n-concat_map :
      (enc : A → Bytes) (items : List A) (rest : Bytes)
      → All (ReadsBack item enc) items
      → parse_n (length items) (concat_map enc items ++ rest) ≡ ok items
  unfolding parse_n
  parse_n-concat_map enc [] rest h = refl
  parse_n-concat_map enc (a ∷ items) rest ((pos, back), h) =
      rw (append_assoc (enc a) (concat_map enc items) rest) (
        rw (back (concat_map enc items ++ rest)) (
          rw (drop-length-append (enc a) (concat_map enc items ++ rest))
            (rw (parse_n-concat_map enc items rest h))))

  cons-Returns :
      (r : Result E (List A)) (a : A) → Returns r → Returns (r >>= λ items. ok (a ∷ items))
  cons-Returns (ok items) a h = tt
  cons-Returns (err x) a h = tt
  cons-Returns panic a h = h
  cons-Returns stuck a h = h

  round-Returns :
      (r : Result E (A × ℕ)) (rest : ℕ → Result E (List A))
      → Progress r
      → ((n : ℕ) → 0 < n → Returns (rest n))
      → Returns (do (a, n) ← r; items ← rest n; ok (a ∷ items))
  round-Returns (ok (a, n)) rest q h = cons-Returns (rest n) a (h n q)
  round-Returns (err x) rest q h = tt
  round-Returns panic rest q h = q
  round-Returns stuck rest q h = q

  -- A loop over items that take a byte at least ends within as many rounds as there are bytes.
  pub parse_all-Returns :
      ((data' : Bytes) → Progress (item data'))
      → (fuel : ℕ) (data' : Bytes) → length data' ≤ fuel
      → Returns (parse_all fuel data')
  unfolding parse_all
  parse_all-Returns p fuel [] h = tt
  parse_all-Returns p zero (b ∷ bs) h = absurd (omega arith)
  parse_all-Returns p (suc fuel) (b ∷ bs) h =
      round-Returns (item (b ∷ bs)) (λ n. parse_all fuel (drop n (b ∷ bs))) (p (b ∷ bs))
        (λ n q. parse_all-Returns p fuel (drop n (b ∷ bs)) (omega (arith, length-drop n (b ∷ bs))))

  pub parse_n-Returns :
      ((data' : Bytes) → Progress (item data'))
      → (count : ℕ) (data' : Bytes) → Returns (parse_n count data')
  unfolding parse_n
  parse_n-Returns p zero data' = tt
  parse_n-Returns p (suc count) data' =
      round-Returns (item data') (λ n. parse_n count (drop n data')) (p data')
        (λ n q. parse_n-Returns p count (drop n data'))
