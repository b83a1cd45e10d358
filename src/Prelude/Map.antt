-- ===== src/Prelude/Map.antt =====
-- Go maps with numeric keys, as lists without a second entry for a key.
use swu_go.Prelude.{
  ℕ, suc, ◌≡◌, refl, none, some, Option, List, [], ◌∷◌, ◌==◌, if◌then◌else◌, length, arith,
}

module _ {V : Type 0} where
  unfoldable pub get : ℕ → List (ℕ × V) → Option V
  get k [] = none
  get k ((j, v) ∷ m) = if j == k then some v else get k m

  unfoldable pub put : ℕ → V → List (ℕ × V) → List (ℕ × V)
  put k v [] = (k, v) ∷ []
  put k v ((j, w) ∷ m) = if j == k then (k, v) ∷ m else (j, w) ∷ put k v m

  unfoldable pub del : ℕ → List (ℕ × V) → List (ℕ × V)
  del k [] = []
  del k ((j, v) ∷ m) = if j == k then del k m else (j, v) ∷ del k m

  pub get-put :
      (k j : ℕ) (v : V) (m : List (ℕ × V))
      → get j (put k v m) ≡ (if k == j then some v else get j m)
  unfolding get put
  get-put k j v [] = refl
  get-put k j v ((i, w) ∷ m) = ground (arith, get-put k j v m)

  pub get-del : (k j : ℕ) (m : List (ℕ × V)) → get j (del k m) ≡ (if k == j then none else get j m)
  unfolding get del
  get-del k j [] = ground arith
  get-del k j ((i, w) ∷ m) = ground (arith, get-del k j m)

  -- A new key adds an entry.
  pub length-put_new :
      (k : ℕ) (v : V) (m : List (ℕ × V)) → get k m ≡ none → length (put k v m) ≡ suc (length m)
  unfolding get put
  length-put_new k v [] h = refl
  length-put_new k v ((i, w) ∷ m) h = ground (arith, length-put_new k v m)
