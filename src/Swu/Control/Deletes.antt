-- ===== src/Swu/Control/Deletes.antt =====
-- ike_control.go: what a Delete for ESP does.
use swu_go.Prelude.{
  ℕ, ◌^◌, ◌<◌, ◌≡◌, refl, ap, ◌∙◌, Bool, true, false, ◌||◌, Bool-cases, inl, inr, Option, none,
  some, Option-cases, List, [], ◌∷◌, ◌==◌, if◌then◌else◌, length, All, arith,
}
use swu_go.Prelude.Bytes.{be32, u32-be32}
use swu_go.Prelude.Map.{get, del, get-del}
use swu_go.Prelude.Parse.{concat_map}
use swu_go.Ikev2.Types.{proto_esp}
use swu_go.Ikev2.Payload.{Payload, delete}
use swu_go.Swu.Control.{
  Control, delete_spi, delete_spis, spis_of, confirm, handle_delete, after_step, handle_payloads,
}

abbrev pub among : ℕ → List ℕ → Bool
among n [] = false
among n (m ∷ ms) = (m == n) || among n ms

-- The SPI, if it is not among the deleted ones.
abbrev pub spared : List ℕ → Option ℕ → Option ℕ
spared spis none = none
spared spis (some out) = if among out spis then none else some out

delete_spi-fields :
    (c : Control) (spi : ℕ)
    → ((delete_spi c spi).0.child_sas_in ≡ del spi c.child_sas_in)
      × ((delete_spi c spi).0.child_sa_out ≡ spared (spi ∷ []) c.child_sa_out)
      × ((delete_spi c spi).0.child_sa_in ≡ c.child_sa_in)
unfolding delete_spi
delete_spi-fields c spi = elim (Option-cases c.child_sa_out) [
  | inl none_out ↦ rw none_out (refl, none_out, refl)
  | inr (out, e) ↦ elim (Bool-cases (out == spi)) [
    | inl same ↦
        let flipped : (spi == out) ≡ true = ground arith in rw (e, same, flipped) (refl, refl, refl)
    | inr other ↦
        let flipped : (spi == out) ≡ false = ground arith in rw (e, other, flipped) (refl, e, refl)
  ]
]

combine :
    (a b : Bool) (o : Option ℕ)
    → (if b then none else (if a then none else o)) ≡ (if a || b then none else o)
combine true true o = refl
combine true false o = refl
combine false b o = refl

spared_if :
    (a : Bool) (spis : List ℕ) (out : ℕ)
    → spared spis (if a || false then none else some out)
      ≡ (if a || among out spis then none else some out)
spared_if true spis out = refl
spared_if false spis out = refl

spared_none : (o : Option ℕ) → o ≡ spared [] o
spared_none none = refl
spared_none (some out) = refl

spared_again :
    (spi : ℕ) (spis : List ℕ) (o : Option ℕ)
    → spared spis (spared (spi ∷ []) o) ≡ spared (spi ∷ spis) o
spared_again spi spis none = refl
spared_again spi spis (some out) = spared_if (spi == out) spis out

delete_spis-fields :
    (c : Control) (spis : List ℕ)
    → ((k : ℕ)
        → get k (delete_spis c spis).0.child_sas_in
          ≡ (if among k spis then none else get k c.child_sas_in))
      × ((delete_spis c spis).0.child_sa_out ≡ spared spis c.child_sa_out)
      × ((delete_spis c spis).0.child_sa_in ≡ c.child_sa_in)
unfolding delete_spis
delete_spis-fields c [] = (λ k. refl, spared_none c.child_sa_out, refl)
delete_spis-fields c (spi ∷ spis) =
    let (table, out, into) = delete_spi-fields c spi in
    let (table', out', into') = delete_spis-fields (delete_spi c spi).0 spis in
    (
      λ k.
          table' k
          ∙ (ap (λ t. if among k spis then none else get k t) table
              ∙ (ap (λ o. if among k spis then none else o) (get-del spi k c.child_sas_in)
                  ∙ combine (spi == k) (among k spis) (get k c.child_sas_in))),
      out' ∙ (ap (spared spis) out ∙ spared_again spi spis c.child_sa_out),
      into' ∙ into,
    )

spis_of-concat_map :
    (spis : List ℕ) → All (λ n. n < 2 ^ 32) spis → spis_of (concat_map be32 spis) ≡ spis
spis_of-concat_map [] h = refl
spis_of-concat_map (n ∷ ns) (hn, h) = λ i. u32-be32 n hn i ∷ spis_of-concat_map ns h i

-- A Delete for ESP that lists these SPIs.
abbrev pub delete_of : List ℕ → Payload
delete_of spis = delete (record {
  protocol_id = proto_esp;
  spi_size = 4;
  num_spis = length spis;
  spis = concat_map be32 spis;
})

confirm-state : (r : Control × List ℕ) → (after_step (confirm r) (λ c. (c, [], []))).0 ≡ r.0
confirm-state (c, []) = refl
confirm-state (c, (spi ∷ spis)) = refl

-- A request with one payload, a Delete for ESP that lists some SPIs of 32 bits, removes exactly these from
-- the inbound associations, and drops the outbound association if its own SPI is listed; the main inbound
-- association stays in its place even if its SPI is listed.
pub handle_payloads-delete_of :
    (msg_id : ℕ) (c : Control) (spis : List ℕ)
    → All (λ n. n < 2 ^ 32) spis
    → let (c', effects, answer) =
        handle_payloads (delete_of spis ∷ []) msg_id c (delete_of spis ∷ []) in
      ((k : ℕ) → get k c'.child_sas_in ≡ (if among k spis then none else get k c.child_sas_in))
      × (c'.child_sa_out ≡ spared spis c.child_sa_out)
      × (c'.child_sa_in ≡ c.child_sa_in)
unfolding handle_payloads handle_delete
handle_payloads-delete_of msg_id c spis h =
    let state : (handle_payloads (delete_of spis ∷ []) msg_id c (delete_of spis ∷ [])).0
        ≡ (delete_spis c spis).0 =
      confirm-state (delete_spis c (spis_of (concat_map be32 spis)))
      ∙ ap (λ l. (delete_spis c l).0) (spis_of-concat_map spis h) in
    let (table, out, into) = delete_spis-fields c spis in
    (
      λ k. ap (λ s. get k s.child_sas_in) state ∙ table k,
      ap (λ s. s.child_sa_out) state ∙ out,
      ap (λ s. s.child_sa_in) state ∙ into,
    )
