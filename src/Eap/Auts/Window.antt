-- ===== src/Eap/Auts/Window.antt =====
-- auts.go: which sequence numbers a manager accepts.
use swu_go.Prelude.{
  ℕ, ◌+◌, ◌^◌, ◌≡◌, refl, sym, subst, Bool-cases, inl, inr, List, [], ◌∷◌, ltb, leb, if◌then◌else◌,
  arith,
}
use swu_go.Eap.Auts.{SqnManager, new_sqn_manager, verify_sqn, update_sqn}

-- The calls that change a manager.
pub data SqnCall : Type 0 where
  verify : ℕ → SqnCall
  update : ℕ → SqnCall

abbrev pub sqn_step : SqnCall → SqnManager → SqnManager
sqn_step (verify n) m = (verify_sqn m n).1
sqn_step (update n) m = update_sqn m n

abbrev pub sqn_run : List SqnCall → SqnManager → SqnManager
sqn_run [] m = m
sqn_run (c ∷ calls) m = sqn_run calls (sqn_step c m)

abbrev max : ℕ → ℕ → ℕ
max a b = if ltb a b then b else a

-- The largest number of a history, accepted or not, and of the updates alone.
abbrev pub largest : ℕ → List SqnCall → ℕ
largest best [] = best
largest best (verify n ∷ calls) = largest (max best n) calls
largest best (update n ∷ calls) = largest (max best n) calls

abbrev pub largest_update : ℕ → List SqnCall → ℕ
largest_update best [] = best
largest_update best (verify n ∷ calls) = largest_update best calls
largest_update best (update n ∷ calls) = largest_update (max best n) calls

after_verify : (m : SqnManager) (n : ℕ) → (verify_sqn m n).1 ≡ record m { sqn_ms = max m.sqn_ms n }
unfolding verify_sqn
after_verify m n = elim (Bool-cases (ltb m.sqn_ms n)) [
  | inl new ↦ rw new refl
  | inr old ↦ rw old refl
]

fields_of_run :
    (calls : List SqnCall) (m : SqnManager)
    → ((sqn_run calls m).sqn_ms ≡ largest m.sqn_ms calls)
      × ((sqn_run calls m).sqn ≡ largest_update m.sqn calls)
      × ((sqn_run calls m).delta ≡ m.delta)
unfolding update_sqn
fields_of_run [] m = (refl, refl, refl)
fields_of_run (verify n ∷ calls) m =
    subst
      (λ k.
        ((sqn_run calls k).sqn_ms ≡ largest (max m.sqn_ms n) calls)
        × ((sqn_run calls k).sqn ≡ largest_update m.sqn calls)
        × ((sqn_run calls k).delta ≡ m.delta))
      (sym (after_verify m n)) (fields_of_run calls (record m { sqn_ms = max m.sqn_ms n }))
fields_of_run (update n ∷ calls) m = fields_of_run calls (update_sqn m n)

accepts :
    (m : SqnManager) (n d best : ℕ)
    → m.delta ≡ d
    → m.sqn_ms ≡ best
    → (verify_sqn m n).0 ≡ leb best (n + d)
unfolding verify_sqn
accepts m n d best hd hb = elim (Bool-cases (ltb m.sqn_ms n)) [
  | inl new ↦ rw new (ground arith)
  | inr old ↦ rw old (ground arith)
]

-- Whatever numbers were verified and updated before, in any order, a manager that began with `initial`
-- accepts a number exactly if it is at most 2^28 below the largest one that it has met, whether that was
-- accepted or not; and GetSQN gives the largest of the initial and the updated ones.
pub verify_sqn-largest :
    (initial : ℕ) (calls : List SqnCall) (n : ℕ)
    → ((verify_sqn (sqn_run calls (new_sqn_manager initial)) n).0
        ≡ leb (largest initial calls) (n + 2 ^ 28))
      × ((sqn_run calls (new_sqn_manager initial)).sqn ≡ largest_update initial calls)
unfolding verify_sqn new_sqn_manager
verify_sqn-largest initial calls n =
    let (ms, sqn, delta) = fields_of_run calls (new_sqn_manager initial) in
    (
      accepts (sqn_run calls (new_sqn_manager initial)) n (2 ^ 28) (largest initial calls) delta ms,
      sqn,
    )
