-- ===== src/Swu/Message/Ends.antt =====
-- msg_handler.go and fragment.go: the fuel of parsePayloads and of reassemble is enough.
use swu_go.Prelude.{
  ℕ, zero, suc, ◌+◌, ◌-◌, ◌%◌, ◌^◌, ◌≤◌, ◌<◌, ◌≡◌, ◌≢◌, refl, subst, Bool, true, false, Option,
  none, some, List, [], ◌∷◌, ◌++◌, Result, ok, err, panic, stuck, ◌>>=◌, ◌>>◌, fail_if, ltb, leb,
  ◌==◌, if◌then◌else◌, shorter, length, length-drop, take, drop, Returns, arith,
}
use swu_go.Prelude.Bytes.{Bytes}
use swu_go.Prelude.Map.{get}
use swu_go.Ikev2.Types.{Error, no_next_payload}
use swu_go.Ikev2.Header.{PayloadHeader, decode_payload_header}
use swu_go.Ikev2.Payload.{Payload, decode_payload}
use swu_go.Ikev2.Payload.RoundTrip.{decode_payload-Returns}
use swu_go.Swu.Error.{SwuError, lift, payload_too_short, fragment_missing}
use swu_go.Swu.Fragment.{collect}
use swu_go.Swu.Message.{next_payload, parse_loop, parse_payloads}

abbrev Ends : {A : Type 0} → Result SwuError A → Type 0
Ends (ok a) = Unit {0}
Ends (err e) = Unit {0}
Ends panic = Unit {0}
Ends stuck = ⊥

>>=-Ends :
    {A B : Type 0} (r : Result SwuError A) (f : A → Result SwuError B)
    → Ends r
    → ((a : A) → Ends (f a))
    → Ends (r >>= f)
>>=-Ends (ok a) f h k = k a
>>=-Ends (err e) f h k = tt
>>=-Ends panic f h k = tt
>>=-Ends stuck f h k = h

Ends-ne-stuck : {A : Type 0} (r : Result SwuError A) → Ends r → r ≢ stuck
Ends-ne-stuck (ok a) h = λ e. cc
Ends-ne-stuck (err x) h = λ e. cc
Ends-ne-stuck panic h = λ e. cc
Ends-ne-stuck stuck h = absurd h

-- A round that goes on takes 4 bytes at least.
abbrev Advance : Result SwuError (Payload × ℕ × ℕ) → Type 0
Advance (ok (p, next, n)) = 4 ≤ n
Advance (err e) = Unit {0}
Advance panic = Unit {0}
Advance stuck = ⊥

body-Advance :
    (r : Result Error Payload) (next n : ℕ)
    → Returns r
    → 4 ≤ n
    → Advance (lift r >>= λ p. ok (p, next, n))
body-Advance (ok p) next n h k = k
body-Advance (err e) next n h k = tt
body-Advance panic next n h k = tt
body-Advance stuck next n h k = h

sized-Advance :
    (b : Bool) (r : Result SwuError (Payload × ℕ × ℕ))
    → Advance r
    → Advance (fail_if b payload_too_short >> r)
sized-Advance true r h = tt
sized-Advance false r h = h

whole-Advance :
    (b : Bool) (r : Result SwuError (Payload × ℕ × ℕ))
    → (b ≡ false → Advance r)
    → Advance (if b then panic else r)
whole-Advance true r h = tt
whole-Advance false r h = h refl

header-Advance :
    (r : Result Error PayloadHeader) (t : ℕ) (buf : Bytes)
    → Returns r
    → Advance (do
      h ← lift r
      fail_if (shorter buf h.payload_length) payload_too_short
      if ltb h.payload_length 4 then panic else do
        p ← lift (decode_payload t (take (h.payload_length - 4) (drop 4 buf)))
        ok (p, h.next_payload, h.payload_length))
header-Advance (ok h) t buf k = sized-Advance (shorter buf h.payload_length) _ (
    whole-Advance (ltb h.payload_length 4) _ (λ e.
      body-Advance (decode_payload t _) h.next_payload h.payload_length (decode_payload-Returns t _)
        (ground arith)))
header-Advance (err e) t buf k = tt
header-Advance panic t buf k = tt
header-Advance stuck t buf k = k

next_payload-Advance : (t : ℕ) (buf : Bytes) → Advance (next_payload t buf)
unfolding next_payload
next_payload-Advance t buf =
    header-Advance (decode_payload_header (take 4 buf)) t buf
      (unfold decode_payload_header in ground arith)

round-Ends :
    (r : Result SwuError (Payload × ℕ × ℕ)) (rest : ℕ → ℕ → Result SwuError (List Payload))
    → Advance r
    → ((next n : ℕ) → 4 ≤ n → Ends (rest next n))
    → Ends (do (p, next, n) ← r; ps ← rest next n; ok (p ∷ ps))
round-Ends (ok (p, next, n)) rest h k =
    >>=-Ends (rest next n) (λ ps. ok (p ∷ ps)) (k next n h) (λ ps. tt)
round-Ends (err e) rest h k = tt
round-Ends panic rest h k = tt
round-Ends stuck rest h k = h

tests-Ends :
    (b c : Bool) (r : Result SwuError (List Payload))
    → Ends r
    → Ends (elim b [ true ↦ ok [] | false ↦ elim c [ true ↦ ok [] | false ↦ r ] ])
tests-Ends true c r h = tt
tests-Ends false true r h = tt
tests-Ends false false r h = h

parse_loop-Ends : (fuel t : ℕ) (buf : Bytes) → length buf ≤ fuel → Ends (parse_loop fuel t buf)
unfolding parse_loop
parse_loop-Ends fuel t [] h = tt
parse_loop-Ends zero t (b ∷ bs) h = absurd (omega arith)
parse_loop-Ends (suc fuel) t (b ∷ bs) h = tests-Ends (t == no_next_payload) (shorter (b ∷ bs) 4) _ (
    round-Ends (next_payload t (b ∷ bs)) (λ next n. parse_loop fuel next (drop n (b ∷ bs)))
      (next_payload-Advance t (b ∷ bs))
      (λ next n q.
        parse_loop-Ends fuel next (drop n (b ∷ bs)) (omega (arith, length-drop n (b ∷ bs)))))

-- parsePayloads ends on every input: it gives payloads or an error, or it panics.
parse_payloads-ne-stuck : (buf : Bytes) (first : ℕ) → parse_payloads buf first ≢ stuck
unfolding parse_payloads
parse_payloads-ne-stuck buf first =
    Ends-ne-stuck _ (parse_loop-Ends (length buf) first buf (omega arith))

fragment-Ends :
    (b : Bool) (o : Option Bytes) (rest : Result SwuError Bytes)
    → (b ≡ true → Ends rest)
    → Ends (elim b [
      | false ↦ ok []
      | true ↦ elim o [ none ↦ err fragment_missing | some d ↦ do x ← rest; ok (d ++ x) ]
    ])
fragment-Ends false o rest h = tt
fragment-Ends true none rest h = tt
fragment-Ends true (some d) rest h = >>=-Ends rest (λ x. ok (d ++ x)) (h refl) (λ x. tt)

collect-Ends :
    (fuel i total : ℕ) (received : List (ℕ × Bytes))
    → total < 65535
    → total + 2 ≤ fuel + i
    → i ≤ total + 1
    → Ends (collect fuel i total received)
unfolding collect
collect-Ends zero i total received small enough low = absurd (omega arith)
collect-Ends (suc fuel) i total received small enough low =
    fragment-Ends (leb i total) (get i received) (collect fuel ((i + 1) % 2 ^ 16) total received)
      (λ e.
        subst (λ j. Ends (collect fuel j total received))
          (next_number i total small (leb-below i total e))
          (collect-Ends fuel (i + 1) total received small (omega arith)
            (next_below i total (leb-below i total e))))
  where
    leb-below : (i total : ℕ) → leb i total ≡ true → i ≤ total
    leb-below i total e = ground arith

    next_below : (i total : ℕ) → i ≤ total → i + 1 ≤ total + 1
    next_below i total h = omega arith

    next_number : (i total : ℕ) → total < 65535 → i ≤ total → i + 1 ≡ (i + 1) % 2 ^ 16
    next_number i total small low = omega arith

-- With a total below 65535 the loop of reassemble ends, and one round more than fragments is enough.
collect-ne-stuck :
    (total : ℕ) (received : List (ℕ × Bytes))
    → total < 65535
    → collect (suc total) 1 total received ≢ stuck
collect-ne-stuck total received small =
    Ends-ne-stuck _ (collect-Ends (suc total) 1 total received small (omega arith) (omega arith))
