-- ===== src/Sim/Soft/Replay.antt =====
-- softsim.go: which challenges a SIM answers, over any history of challenges.
use swu_go.Prelude.{
  ℕ, zero, suc, ◌+◌, ◌%◌, ◌^◌, ◌≤◌, ◌<◌, ◌≡◌, refl, sym, ap, subst, ◌∙◌, true, if_cases, and_true,
  eq_of_test, inl, inr, List, [], ◌∷◌, Result, ok, err, panic, stuck, guard-ok, ◌>>=◌, ltb,
  if◌then◌else◌, drop, slice_at, All, arith,
}
use swu_go.Prelude.Bytes.{Bytes, IsByte, byte_at, xor_front}
use swu_go.Eap.Auts.{decode_sqn}
use swu_go.Crypto.Milenage.{
  Milenage, AkaError, mac_failed, out_of_sync, same_front, f1, f2f5, generate_auts, answer,
  verify_autn,
}
use swu_go.Crypto.Milenage.Blocks.{xor_front-IsByte}
use swu_go.Sim.Soft.{SoftSim, learn, calculate_aka}

decode_sqn-lt : (xs : Bytes) → All IsByte xs → decode_sqn xs < 2 ^ 48
unfolding decode_sqn
decode_sqn-lt [] h = omega arith
decode_sqn-lt (a ∷ []) h = omega arith
decode_sqn-lt (a ∷ b ∷ []) h = omega arith
decode_sqn-lt (a ∷ b ∷ c ∷ []) h = omega arith
decode_sqn-lt (a ∷ b ∷ c ∷ d ∷ []) h = omega arith
decode_sqn-lt (a ∷ b ∷ c ∷ d ∷ e ∷ []) h = omega arith
decode_sqn-lt (a ∷ b ∷ c ∷ d ∷ e ∷ f ∷ rest) h = omega arith

byte_at-drop : (i : ℕ) (xs : Bytes) → byte_at (suc i) xs ≡ byte_at i (drop 1 xs)
byte_at-drop i [] = refl
byte_at-drop i (x ∷ xs) = refl

same_front-byte_at :
    (n : ℕ) (xs ys : Bytes) (i : ℕ)
    → same_front n xs ys ≡ true
    → i < n
    → byte_at i xs ≡ byte_at i ys
unfolding same_front
same_front-byte_at zero xs ys i h k = absurd (omega arith)
same_front-byte_at (suc n) xs ys zero h k = eq_of_test _ _ (and_true _ _ h).0
same_front-byte_at (suc n) xs ys (suc i) h k =
    byte_at-drop i xs
    ∙ same_front-byte_at n (drop 1 xs) (drop 1 ys) i (and_true _ _ h).1 (omega arith)
    ∙ sym (byte_at-drop i ys)

module _ (aes : Bytes → Bytes → Bytes) where
  -- The sequence number that a challenge hides, as the SIM reads it.
  abbrev pub hidden : Milenage → Bytes → Bytes → Bytes
  hidden m rand autn = elim (f2f5 aes m rand) [ ok (res, ak) ↦ xor_front 6 autn ak | _ ↦ [] ]

  -- MAC-A of the number and the AMF in the challenge stands in its last eight bytes.
  abbrev pub IsAuthentic : Milenage → Bytes → Bytes → Type 0
  IsAuthentic m rand autn =
      (macs : Bytes × Bytes) × (f1 aes m rand (hidden m rand autn) (slice_at 6 2 autn) ≡ ok macs)
      × ((i : ℕ) → i < 8 → byte_at i macs.0 ≡ byte_at i (slice_at 8 8 autn))

  answer-ok :
      (m : Milenage) (rand res sqn : Bytes) (expected : ℕ) (keys : Bytes × Bytes × Bytes)
      → answer aes m rand res sqn expected ≡ ok keys
      → expected ≤ decode_sqn sqn
  unfolding answer
  answer-ok m rand res sqn expected keys h =
      elim (if_cases (ltb (decode_sqn sqn) expected) _ _ _ h) [
        | inl (old, e) ↦ absurd (refused (generate_auts aes m rand sqn) e)
        | inr (new, e) ↦ ground arith
      ]
    where
      refused :
          (r : Result AkaError Bytes)
          → ◌≡◌ {A = Result AkaError (Bytes × Bytes × Bytes)}
              (r >>= λ auts. err (out_of_sync auts))
              (ok keys)
          → ⊥
      refused (ok auts) e = cc
      refused (err x) e = cc
      refused panic e = cc
      refused stuck e = cc

  macs_compared :
      (m : Milenage) (rand res sqn autn : Bytes) (expected : ℕ) (keys : Bytes × Bytes × Bytes)
      (r : Result AkaError (Bytes × Bytes))
      → (do
        (mac_a, mac_s) ← r
        (if same_front 8 mac_a (slice_at 8 8 autn)
            then answer aes m rand res sqn expected
            else err mac_failed))
        ≡ ok keys
      → (macs : Bytes × Bytes) × (r ≡ ok macs)
        × (same_front 8 macs.0 (slice_at 8 8 autn) ≡ true)
        × (answer aes m rand res sqn expected ≡ ok keys)
  macs_compared m rand res sqn autn expected keys (err e) h = cc
  macs_compared m rand res sqn autn expected keys panic h = cc
  macs_compared m rand res sqn autn expected keys stuck h = cc
  macs_compared m rand res sqn autn expected keys (ok (mac_a, mac_s)) h =
      elim (if_cases (same_front 8 mac_a (slice_at 8 8 autn)) _ _ _ h) [
        | inl (same, e) ↦ ((mac_a, mac_s), refl, same, e)
        | inr (other, e) ↦ cc
      ]

  -- What stands behind an answer.
  abbrev Verified : Milenage → Bytes → Bytes → ℕ → Type 0
  Verified m rand autn expected =
      (keys : Bytes × Bytes) × (f2f5 aes m rand ≡ ok keys)
      × IsAuthentic m rand autn
      × (expected ≤ decode_sqn (hidden m rand autn))

  f2f5-Verified :
      (m : Milenage) (rand autn : Bytes) (expected : ℕ) (keys : Bytes × Bytes × Bytes)
      (r : Result AkaError (Bytes × Bytes))
      → f2f5 aes m rand ≡ r
      → (do
        (res, ak) ← r
        (mac_a, mac_s) ← f1 aes m rand (xor_front 6 autn ak) (slice_at 6 2 autn)
        (if same_front 8 mac_a (slice_at 8 8 autn)
            then answer aes m rand res (xor_front 6 autn ak) expected
            else err mac_failed))
        ≡ ok keys
      → Verified m rand autn expected
  f2f5-Verified m rand autn expected keys (err x) e h = cc
  f2f5-Verified m rand autn expected keys panic e h = cc
  f2f5-Verified m rand autn expected keys stuck e h = cc
  f2f5-Verified m rand autn expected keys (ok (res, ak)) e h =
      let sqn = xor_front 6 autn ak in
      let (macs, e1, same, answered) =
        macs_compared m rand res sqn autn expected keys (f1 aes m rand sqn (slice_at 6 2 autn)) h in
      let read : hidden m rand autn ≡ sqn = rw (e, hidden) refl in
      (
        (res, ak),
        e,
        (macs, rw read e1, λ i k. same_front-byte_at 8 macs.0 (slice_at 8 8 autn) i same k),
        rw read (answer-ok m rand res sqn expected keys answered),
      )

  verify_autn-Verified :
      (m : Milenage) (rand autn : Bytes) (expected : ℕ) (keys : Bytes × Bytes × Bytes)
      → verify_autn aes m rand autn expected ≡ ok keys
      → Verified m rand autn expected
  unfolding verify_autn
  verify_autn-Verified m rand autn expected keys h =
      f2f5-Verified m rand autn expected keys (f2f5 aes m rand) refl (guard-ok _ _ _ keys h)

  hidden_bound : (m : Milenage) (rand autn : Bytes) → decode_sqn (hidden m rand autn) < 2 ^ 48
  hidden_bound m rand autn = bound (f2f5 aes m rand)
    where
      bound :
          (r : Result AkaError (Bytes × Bytes))
          → decode_sqn (elim r [ ok (res, ak) ↦ xor_front 6 autn ak | _ ↦ [] ]) < 2 ^ 48
      bound (ok (res, ak)) = decode_sqn-lt (xor_front 6 autn ak) (xor_front-IsByte 6 autn ak)
      bound (err e) = decode_sqn-lt [] tt
      bound panic = decode_sqn-lt [] tt
      bound stuck = decode_sqn-lt [] tt

  -- The SIM behind an answer expects a number above the one it met; without one it stays as it was.
  abbrev After :
      SoftSim → Bytes → Bytes → SoftSim × Result AkaError (Bytes × Bytes × Bytes) → Type 0
  After s rand autn (s', ok keys) =
      IsAuthentic s.milenage rand autn
      × (s.sqn ≤ decode_sqn (hidden s.milenage rand autn))
      × (s' ≡ record s { sqn = decode_sqn (hidden s.milenage rand autn) + 1 })
  After s rand autn (s', err e) = s' ≡ s
  After s rand autn (s', panic) = s' ≡ s
  After s rand autn (s', stuck) = s' ≡ s

  pub learn_ok :
      (s : SoftSim) (rand autn : Bytes) (keys : Bytes × Bytes)
      → f2f5 aes s.milenage rand ≡ ok keys
      → learn aes s rand autn ≡ ok (record s { sqn = decode_sqn (hidden s.milenage rand autn) + 1 })
  unfolding learn
  learn_ok s rand autn (res, ak) e =
      let read : hidden s.milenage rand autn ≡ xor_front 6 autn ak = rw (e, hidden) refl in
      let small = hidden_bound s.milenage rand autn in
      let fits : (decode_sqn (xor_front 6 autn ak) + 1) % 2 ^ 64
          ≡ decode_sqn (hidden s.milenage rand autn) + 1 =
        rw (← read) (omega arith) in
      rw (e, learn) (ap (λ n. ok (record s { sqn = n })) fits)

  verify_autn-After :
      (s : SoftSim) (rand autn : Bytes) (r : Result AkaError (Bytes × Bytes × Bytes))
      → verify_autn aes s.milenage rand autn s.sqn ≡ r
      → After s rand autn (elim r [
        | err e ↦ (s, err e)
        | panic ↦ (s, panic)
        | stuck ↦ (s, stuck)
        | ok keys ↦ elim (learn aes s rand autn) [
          | ok s' ↦ (s', ok keys)
          | err e ↦ (s, err e)
          | panic ↦ (s, panic)
          | stuck ↦ (s, stuck)
        ]
      ])
  verify_autn-After s rand autn (err e) h = refl
  verify_autn-After s rand autn panic h = refl
  verify_autn-After s rand autn stuck h = refl
  verify_autn-After s rand autn (ok keys) h =
      let (pair, e, authentic, fresh) = verify_autn-Verified s.milenage rand autn s.sqn keys h in
      rw (learn_ok s rand autn pair e) (authentic, fresh, refl)

  calculate_aka-After :
      (s : SoftSim) (rand autn : Bytes) → After s rand autn (calculate_aka aes s rand autn)
  unfolding calculate_aka
  calculate_aka-After s rand autn =
      verify_autn-After s rand autn (verify_autn aes s.milenage rand autn s.sqn) refl

  -- The challenges of a history that the SIM answers.
  abbrev pub accepted : SoftSim → List (Bytes × Bytes) → List (Bytes × Bytes)
  accepted s [] = []
  accepted s ((rand, autn) ∷ cs) =
      let (s', r) = calculate_aka aes s rand autn in
      elim r [ ok keys ↦ (rand, autn) ∷ accepted s' cs | _ ↦ accepted s' cs ]

  -- Each is authentic, and its number is at least the bound, and above those of the ones before it.
  abbrev pub IsRising : Milenage → ℕ → List (Bytes × Bytes) → Type 0
  IsRising m low [] = Unit {0}
  IsRising m low ((rand, autn) ∷ cs) =
      IsAuthentic m rand autn
      × (low ≤ decode_sqn (hidden m rand autn))
      × IsRising m (decode_sqn (hidden m rand autn) + 1) cs

  one_more :
      (s : SoftSim) (rand autn : Bytes) (cs : List (Bytes × Bytes))
      (p : SoftSim × Result AkaError (Bytes × Bytes × Bytes))
      → After s rand autn p
      → ((t : SoftSim) → IsRising t.milenage t.sqn (accepted t cs))
      → IsRising s.milenage s.sqn
          (elim p.1 [ ok keys ↦ (rand, autn) ∷ accepted p.0 cs | _ ↦ accepted p.0 cs ])
  one_more s rand autn cs (s', ok keys) (authentic, fresh, e) ih = (
    authentic,
    fresh,
    subst (λ t. IsRising s.milenage (decode_sqn (hidden s.milenage rand autn) + 1) (accepted t cs))
        (sym e) (ih _),
  )
  one_more s rand autn cs (s', err x) e ih =
      subst (λ t. IsRising s.milenage s.sqn (accepted t cs)) (sym e) (ih s)
  one_more s rand autn cs (s', panic) e ih =
      subst (λ t. IsRising s.milenage s.sqn (accepted t cs)) (sym e) (ih s)
  one_more s rand autn cs (s', stuck) e ih =
      subst (λ t. IsRising s.milenage s.sqn (accepted t cs)) (sym e) (ih s)

  -- Of the challenges that a SIM is given one after the other it answers only those whose last eight bytes
  -- are MAC-A of the number and the AMF in them; the numbers are at least the one that the SIM expected at
  -- first, and each is above those of the challenges answered before it, so none is answered twice.
  pub accepted-IsRising :
      (s : SoftSim) (cs : List (Bytes × Bytes)) → IsRising s.milenage s.sqn (accepted s cs)
  accepted-IsRising s [] = tt
  accepted-IsRising s ((rand, autn) ∷ cs) =
      one_more s rand autn cs (calculate_aka aes s rand autn) (calculate_aka-After s rand autn)
        (λ t. accepted-IsRising t cs)
