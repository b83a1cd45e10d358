-- ===== src/Swu/Fragment/Tests.antt =====
-- fragment.go: runs, and the theorem at a concrete input.
use swu_go.Prelude.{ℕ, ◌≡◌, refl, none, List, [], ◌∷◌, ok, arith}
use swu_go.Prelude.Bytes.{Bytes}
use swu_go.Prelude.Map.{get}
use swu_go.Swu.Fragment.{reassemble}
use swu_go.Swu.Fragment.Reassembly.{feed, numbered, join, answers, reassemble-feed}

-- Three fragments, the last one first.
abbrev chunks : List Bytes
chunks = (10 ∷ 11 ∷ []) ∷ (20 ∷ []) ∷ (30 ∷ []) ∷ []

abbrev late : List (ℕ × Bytes)
late = (1, 10 ∷ 11 ∷ []) ∷ (2, 20 ∷ []) ∷ []

late-same : (i : ℕ) → get i ((3, 30 ∷ []) ∷ late) ≡ get i (numbered 1 chunks)
unfolding get
late-same i = ground arith

reassemble-feed_example :
    let (fb', said) = feed 7 3 ((3, 30 ∷ []) ∷ late) [] in
    (said ≡ answers ((3, 30 ∷ []) ∷ late))
    × ((reassemble 7 fb').1 ≡ ok (join chunks))
    × (get 7 (reassemble 7 fb').0 ≡ none)
unfolding get
reassemble-feed_example =
    reassemble-feed 7 chunks (3, 30 ∷ []) late [] refl refl (omega arith) (omega arith)
      (refl, (refl, (refl, tt))) late-same
