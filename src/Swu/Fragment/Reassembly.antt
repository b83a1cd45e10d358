-- ===== src/Swu/Fragment/Reassembly.antt =====
-- fragment.go: fragments that arrive in any order are joined in the order of their numbers.
use swu_go.Prelude.{
  ℕ, zero, suc, ◌+◌, ◌%◌, ◌^◌, ◌≤◌, ◌<◌, ◌≡◌, ◌≢◌, refl, ap, ◌∙◌, Bool, true, false, Option, none,
  some, List, [], ◌∷◌, ◌++◌, Result, ok, ltb-false, leb-true, leb-false, ◌==◌, ==_refl, length,
  arith,
}
use swu_go.Prelude.Bytes.{Bytes}
use swu_go.Prelude.Map.{get, put, get-put, get-del, length-put_new}
use swu_go.Swu.Error.{SwuError}
use swu_go.Swu.Fragment.{
  FragmentSet, FragmentBuffer, fresh_set, found, store_fragment, add_fragment, collect, reassemble,
  clear_on_success,
}

-- The fragments (number, plaintext) of one message, added one after the other, with the answers.
pub feed : ℕ → ℕ → List (ℕ × Bytes) → FragmentBuffer → FragmentBuffer × List (Result SwuError Bool)
feed id total [] fb = (fb, [])
feed id total ((num, d) ∷ xs) fb =
    let (fb', r) = add_fragment id num total d fb in
    let (fb'', rs) = feed id total xs fb' in (fb'', r ∷ rs)

abbrev pub sizes : List (ℕ × Bytes) → ℕ
sizes [] = 0
sizes ((num, d) ∷ xs) = length d + sizes xs

-- No number comes twice.
abbrev pub DistinctNumbers : List (ℕ × Bytes) → Type 0
DistinctNumbers [] = Unit {0}
DistinctNumbers ((num, d) ∷ xs) = (get num xs ≡ none) × DistinctNumbers xs

-- The plaintexts, numbered from `i` on, and joined.
abbrev pub numbered : ℕ → List Bytes → List (ℕ × Bytes)
numbered i [] = []
numbered i (c ∷ cs) = (i, c) ∷ numbered (suc i) cs

abbrev pub join : List Bytes → Bytes
join [] = []
join (c ∷ cs) = c ++ join cs

-- The answers to `xs`: only the last says that the message is complete.
abbrev pub answers : List (ℕ × Bytes) → List (Result SwuError Bool)
answers [] = []
answers (x ∷ []) = ok true ∷ []
answers (x ∷ (y ∷ xs)) = ok false ∷ answers (y ∷ xs)

-- One new fragment that keeps within the size.
add_same :
    (id num total : ℕ) (d : Bytes) (fb : FragmentBuffer) (fs : FragmentSet)
    → found id total fb ≡ fs
    → fs.total ≡ total
    → add_fragment id num total d fb ≡ store_fragment id num d fs fb
unfolding add_fragment
add_same id num total d fb fs e t = ground arith

grown : FragmentSet → ℕ → Bytes → FragmentSet
grown fs num d = record {
  total = fs.total;
  received = put num d fs.received;
  total_len = fs.total_len + length d;
}

store_new :
    (id num : ℕ) (d : Bytes) (fb : FragmentBuffer) (fs : FragmentSet)
    → get num fs.received ≡ none
    → fs.total_len + length d ≤ 65536
    → store_fragment id num d fs fb
      ≡ (put id (grown fs num d) fb, ok (length (put num d fs.received) % 2 ^ 16 == fs.total))
unfolding store_fragment grown
store_new id num d fb fs new size =
    rw (new, store_fragment) (rw (ltb-false 65536 (fs.total_len + length d) size))

-- What the set of a message holds after `xs`, on top of `fs`.
abbrev Holds : ℕ → FragmentSet → List (ℕ × Bytes) → FragmentBuffer → Type 0
Holds id fs xs fb =
    (fs' : FragmentSet) × (get id fb ≡ some fs')
    × (fs'.total ≡ fs.total)
    × ((i : ℕ)
        → get i fs'.received ≡ (elim (get i fs.received) [ none ↦ get i xs | some d ↦ some d ]))

found-some :
    (id total : ℕ) (fb : FragmentBuffer) (fs : FragmentSet)
    → get id fb ≡ some fs
    → found id total fb ≡ fs
unfolding found
found-some id total fb fs e = rw (e, found)

get-put_self : (id : ℕ) (fs : FragmentSet) (fb : FragmentBuffer) → get id (put id fs fb) ≡ some fs
get-put_self id fs fb = get-put id id fs fb ∙ rw (==_refl id)

-- Nothing of `xs` was received before.
abbrev New : FragmentSet → List (ℕ × Bytes) → Type 0
New fs [] = Unit {0}
New fs ((num, d) ∷ xs) = (get num fs.received ≡ none) × New fs xs

absent_ne :
    (num : ℕ) (d : Bytes) (k : ℕ) (e : Bytes) (xs : List (ℕ × Bytes))
    → get num ((k, e) ∷ xs) ≡ none
    → num ≢ k
unfolding get
absent_ne num d k e xs h = ground arith

New-grown :
    (fs : FragmentSet) (num : ℕ) (d : Bytes) (xs : List (ℕ × Bytes))
    → New fs xs
    → get num xs ≡ none
    → New (grown fs num d) xs
unfolding grown get
New-grown fs num d [] h a = tt
New-grown fs num d ((k, e) ∷ xs) (new, h) a =
    (ground (arith, get-put num k d fs.received), New-grown fs num d xs h (ground arith))

got :
    (num i : ℕ) (d : Bytes) (xs received : List (ℕ × Bytes))
    → get num received ≡ none
    → (elim (get i (put num d received)) as (λ o. Option Bytes) [
      | none ↦ get i xs
      | some d' ↦ some d'
    ])
      ≡ (elim (get i received) as (λ o. Option Bytes) [
        | none ↦ get i ((num, d) ∷ xs)
        | some d' ↦ some d'
      ])
unfolding get
got num i d xs received new = ground (arith, get-put num i d received)

got_one :
    (num i : ℕ) (d : Bytes) (received : List (ℕ × Bytes))
    → get num received ≡ none
    → get i (put num d received) ≡ (elim (get i received) as (λ o. Option Bytes) [
      | none ↦ get i ((num, d) ∷ [])
      | some d' ↦ some d'
    ])
unfolding get
got_one num i d received new = ground (arith, get-put num i d received)

last_answer :
    (num : ℕ) (d : Bytes) (received : List (ℕ × Bytes)) (total : ℕ)
    → get num received ≡ none
    → total < 65536
    → length received + 1 ≡ total
    → (length (put num d received) % 2 ^ 16 == total) ≡ true
last_answer num d received total new lt n = ground (arith, length-put_new num d received)

inner_answer :
    (num : ℕ) (d : Bytes) (received : List (ℕ × Bytes)) (total : ℕ)
    → get num received ≡ none
    → (suc (length received) < total) × (total < 65536)
    → (length (put num d received) % 2 ^ 16 == total) ≡ false
inner_answer num d received total new h = ground (arith, length-put_new num d received)

feed_lem :
    (id total num : ℕ) (d : Bytes) (xs : List (ℕ × Bytes)) (fb : FragmentBuffer) (fs : FragmentSet)
    → found id total fb ≡ fs
    → fs.total ≡ total
    → total < 65536
    → length fs.received + suc (length xs) ≡ total
    → fs.total_len + (length d + sizes xs) ≤ 65536
    → DistinctNumbers ((num, d) ∷ xs)
    → New fs ((num, d) ∷ xs)
    → Holds id fs ((num, d) ∷ xs) (feed id total ((num, d) ∷ xs) fb).0
      × ((feed id total ((num, d) ∷ xs) fb).1 ≡ answers ((num, d) ∷ xs))
unfolding feed grown
feed_lem id total num d [] fb fs e t lt n size dist (new, _) =
    rw (add_same id num total d fb fs e t, store_new id num d fb fs new (omega arith))
      (
        (
          grown fs num d,
          get-put_self id (grown fs num d) fb,
          refl,
          λ i. got_one num i d fs.received new,
        ),
        rw (last_answer num d fs.received fs.total new (omega arith) (omega arith)),
      )
feed_lem id total num d ((k, c) ∷ xs) fb fs e t lt n size (a, dist) (new, news) =
    rw (add_same id num total d fb fs e t, store_new id num d fb fs new (omega arith))
      (let fs1 = grown fs num d in
        let fb1 = put id fs1 fb in
        let (held, said) =
          feed_lem id total k c xs fb1 fs1 (found-some id total fb1 fs1 (get-put_self id fs1 fb)) t
            lt (omega (arith, length-put_new num d fs.received new)) (omega arith) dist
            (New-grown fs num d ((k, c) ∷ xs) news a) in
        (
          (held.0, held.1, held.2, λ i. held.3 i ∙ got num i d ((k, c) ∷ xs) fs.received new),
          rw (inner_answer num d fs.received fs.total new (ground arith))
              (ap (λ rs. ok false ∷ rs) said),
        ))

New-fresh : (total : ℕ) (xs : List (ℕ × Bytes)) → New (fresh_set total) xs
unfolding fresh_set get
New-fresh total [] = tt
New-fresh total (x ∷ xs) = (refl, New-fresh total xs)

found-none :
    (id total : ℕ) (fb : FragmentBuffer) → get id fb ≡ none → found id total fb ≡ fresh_set total
unfolding found
found-none id total fb e = rw (e, found)

head_chunk : (i : ℕ) (c : Bytes) (cs : List Bytes) → get i (numbered i (c ∷ cs)) ≡ some c
unfolding get
head_chunk i c cs = rw (==_refl i)

tail_chunk :
    (i j : ℕ) (c : Bytes) (cs : List Bytes)
    → suc i ≤ j
    → get j (numbered i (c ∷ cs)) ≡ get j (numbered (suc i) cs)
unfolding get
tail_chunk i j c cs k = ground arith

-- The loop joins the chunks from number `i` on.
collect-numbered :
    (fuel i total : ℕ) (cs : List Bytes) (received : List (ℕ × Bytes))
    → i + length cs ≡ suc total
    → total < 65535
    → length cs < fuel
    → ((j : ℕ) → i ≤ j → get j received ≡ get j (numbered i cs))
    → collect fuel i total received ≡ ok (join cs)
unfolding collect
collect-numbered zero i total cs received e lt f h = absurd (omega arith)
collect-numbered (suc fuel) i total [] received e lt f h =
    rw (leb-false i total (omega arith), collect)
collect-numbered (suc fuel) i total (c ∷ cs) received e lt f h =
    let next : (i + 1) % 2 ^ 16 ≡ suc i = omega arith in
    rw (leb-true i total (omega arith), collect)
      (rw (h i (omega arith) ∙ head_chunk i c cs, collect)
        (rw (
          next,
          collect-numbered fuel (suc i) total cs received (omega arith) lt (omega arith)
              (λ j k. h j (omega arith) ∙ tail_chunk i j c cs k),
        )))

after_reassemble :
    (id : ℕ) (fb : FragmentBuffer) (fs : FragmentSet) (d : Bytes)
    → get id fb ≡ some fs
    → collect (suc fs.total) 1 fs.total fs.received ≡ ok d
    → ((reassemble id fb).1 ≡ ok d) × (get id (reassemble id fb).0 ≡ none)
unfolding reassemble clear_on_success
after_reassemble id fb fs d e c =
    rw (e, reassemble) (rw (c, clear_on_success) (refl, get-del id id fb ∙ rw (==_refl id)))

-- `n` fragments with distinct numbers, `n` below 65535 and of at most 64 KiB, in any order, of which
-- the one with number `i` is the `i`-th chunk, are all accepted; only the answer to the last one says
-- that the message is complete; and reassemble then returns the chunks in order, and drops the set.
pub reassemble-feed :
    (id : ℕ) (cs : List Bytes) (x : ℕ × Bytes) (xs : List (ℕ × Bytes)) (fb : FragmentBuffer)
    → get id fb ≡ none
    → length cs ≡ suc (length xs)
    → length cs < 65535
    → sizes (x ∷ xs) ≤ 65536
    → DistinctNumbers (x ∷ xs)
    → ((i : ℕ) → get i (x ∷ xs) ≡ get i (numbered 1 cs))
    → let (fb', said) = feed id (length cs) (x ∷ xs) fb in
      (said ≡ answers (x ∷ xs))
      × ((reassemble id fb').1 ≡ ok (join cs))
      × (get id (reassemble id fb').0 ≡ none)
unfolding fresh_set get
reassemble-feed id cs (num, d) xs fb e n lt size dist same =
    let total = length cs in
    let fs = fresh_set total in
    let (held, said) =
      feed_lem id total num d xs fb fs (found-none id total fb e) refl (omega arith) (omega arith)
        (omega arith) dist (New-fresh total ((num, d) ∷ xs)) in
    let fb' = (feed id total ((num, d) ∷ xs) fb).0 in
    let joined : collect (suc held.0.total) 1 held.0.total held.0.received ≡ ok (join cs) =
      rw (held.2) (
        collect-numbered (suc total) 1 total cs held.0.received (omega arith) lt (omega arith)
          (λ j k. held.3 j ∙ same j)) in
    let (back, gone) = after_reassemble id fb' held.0 (join cs) held.1 joined in (said, back, gone)
