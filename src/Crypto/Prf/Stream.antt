-- ===== src/Crypto/Prf/Stream.antt =====
-- prf.go: PrfPlus is the stream T1 | T2 | T3 | ... of RFC 7296, cut to the length that is asked for.
use swu_go.Prelude.{
  ℕ, zero, suc, ◌+◌, ◌*◌, ◌%◌, ◌≤◌, ◌<◌, ◌≡◌, refl, sym, ap, ◌∙◌, true, false, Bool-cases, inl, inr,
  [], ◌∷◌, ◌++◌, append-nil, append_assoc, Result, ok, err, ltb, leb, ltb→lt, ltb-false, lt→ltb,
  leb-true, leb-false, ==_false, if◌then◌else◌, length, length-append, take, arith,
}
use swu_go.Prelude.Bytes.{Bytes}
use native.Mathlib.Nat.{add-zero, zero-mul, suc-mul}
use swu_go.Crypto.Prf.{Prf, PrfError, too_many_blocks, next_block, prf_loop, prf_plus}

module _ (p : Prf) (key seed : Bytes) where
  -- T_n = prf (K, T_(n-1) | S | n), and T_0 is empty.
  abbrev pub t_block : ℕ → Bytes
  t_block zero = []
  t_block (suc n) = p.mac key (t_block n ++ (seed ++ ((suc n % 256) ∷ [])))

  -- T_1 | ... | T_n.
  abbrev pub key_stream : ℕ → Bytes
  key_stream zero = []
  key_stream (suc n) = key_stream n ++ t_block (suc n)

  next_block-t_block : (n : ℕ) → next_block p key seed (t_block n) (suc n) ≡ t_block (suc n)
  unfolding next_block
  next_block-t_block zero = refl
  next_block-t_block (suc n) = rw (==_false (suc (suc n)) 1 (λ e. absurd (omega arith))) refl

  -- More blocks only add at the end.
  key_stream_more : (n m : ℕ) → (rest : Bytes) × (key_stream (n + m) ≡ key_stream n ++ rest)
  key_stream_more n zero = ([], ap key_stream (add-zero n) ∙ sym (append-nil (key_stream n)))
  key_stream_more n (suc m) =
      let (rest, e) = key_stream_more n m in
      let step : n + suc m ≡ suc (n + m) = omega arith in
      (
        rest ++ t_block (suc (n + m)),
        ap key_stream step
            ∙ (ap (λ r. r ++ t_block (suc (n + m))) e
                ∙ append_assoc (key_stream n) rest (t_block (suc (n + m)))),
      )

take-append_front : (n : ℕ) (xs ys : Bytes) → n ≤ length xs → take n (xs ++ ys) ≡ take n xs
take-append_front zero xs ys h = refl
take-append_front (suc n) [] ys h = absurd (omega arith)
take-append_front (suc n) (x ∷ xs) ys h = ap (λ r. x ∷ r) (take-append_front n xs ys (omega arith))

-- What PrfPlus gives: the front of the stream of 254 blocks.
abbrev pub cut_stream : Bytes → ℕ → Result PrfError Bytes
cut_stream stream total =
    if leb total (length stream) then ok (take total stream) else err too_many_blocks

-- The number of blocks is a variable `k` here, so that nothing computes 254 of them.
module _ (p : Prf) (key seed : Bytes) (total k : ℕ) (limit : k ≡ 254) where
  -- The blocks so far are enough.
  stops :
      (m n : ℕ)
      → n + m ≡ k
      → ltb (length (key_stream p key seed n)) total ≡ false
      → ◌≡◌ {A = Result PrfError Bytes}
          (ok (take total (key_stream p key seed n)))
          (cut_stream (key_stream p key seed k) total)
  stops m n e enough =
      let front = key_stream p key seed n in
      let (rest, more) = key_stream_more p key seed n m in
      let short : total ≤ length front = ground (arith, lt→ltb (length front) total) in
      rw
        (
          sym (ap (key_stream p key seed) e) ∙ more,
          take-append_front total front rest short,
          leb-true total (length (front ++ rest)) (omega (arith, length-append front rest)),
        )
        refl

  -- A round that adds a block.
  goes_on :
      (fuel n : ℕ)
      → n < 254
      → ltb (length (key_stream p key seed n)) total ≡ true
      → prf_loop
          (suc fuel)
          p
          key
          seed
          total
          (key_stream p key seed n)
          (t_block p key seed n)
          (suc n)
        ≡ prf_loop fuel p key seed total
            (key_stream p key seed (suc n))
            (t_block p key seed (suc n))
            (suc (suc n))
  unfolding prf_loop
  goes_on fuel n h short =
      let step : suc n + 1 ≡ suc (suc n) = omega arith in
      rw (short, prf_loop)
        (rw (step, ltb-false 255 (suc (suc n)) (omega arith), next_block-t_block p key seed n)
          (ap
            (prf_loop fuel p key seed total (key_stream p key seed (suc n))
              (t_block p key seed (suc n)))
            step))

  -- The loop, behind `n` blocks.
  loop_stream :
      (m n : ℕ)
      → n + m ≡ k
      → prf_loop (suc m) p key seed total (key_stream p key seed n) (t_block p key seed n) (suc n)
        ≡ cut_stream (key_stream p key seed k) total
  unfolding prf_loop
  loop_stream zero n e = elim (Bool-cases (ltb (length (key_stream p key seed n)) total)) [
    | inr enough ↦ rw (enough, prf_loop) (stops zero n e enough)
    | inl short ↦
        let over : ltb 255 (suc n + 1) ≡ true = lt→ltb 255 (suc n + 1) (omega arith) in
        let same : n ≡ k = omega arith in
        rw (short, prf_loop)
          (rw
            (
              over,
              ← same,
              leb-false total (length (key_stream p key seed n))
                  (ltb→lt (length (key_stream p key seed n)) total short),
            )
            refl)
  ]
  loop_stream (suc m) n e = elim (Bool-cases (ltb (length (key_stream p key seed n)) total)) [
    | inr enough ↦ rw (enough, prf_loop) (stops (suc m) n e enough)
    | inl short ↦ goes_on (suc m) n (omega arith) short ∙ loop_stream m (suc n) (omega arith)
  ]

-- As much of the stream as the code can give.
pub full_stream : Prf → Bytes → Bytes → Bytes
full_stream p key seed = key_stream p key seed 254

-- PrfPlus gives the first `total` bytes of T1 | T2 | ... | T254, and an error if these are fewer: the
-- 255th block, which RFC 7296 allows, is an error too.
pub prf_plus-full_stream :
    (p : Prf) (key seed : Bytes) (total : ℕ)
    → prf_plus p key seed total ≡ cut_stream (full_stream p key seed) total
unfolding prf_plus full_stream
prf_plus-full_stream p key seed total = loop_stream p key seed total 254 refl 254 0 refl

-- With blocks of `h` bytes the stream has 254 times as many.
pub length-full_stream :
    (p : Prf) (key seed : Bytes) (h : ℕ)
    → ((text : Bytes) → length (p.mac key text) ≡ h)
    → length (full_stream p key seed) ≡ 254 * h
unfolding full_stream
length-full_stream p key seed h size = length-key_stream 254
  where
    length-key_stream : (n : ℕ) → length (key_stream p key seed n) ≡ n * h
    length-key_stream zero = rw (zero-mul h) refl
    length-key_stream (suc n) =
        let last : length (t_block p key seed (suc n)) ≡ h = size _ in
        rw (suc-mul n h) (
          omega (
            arith,
            length-append (key_stream p key seed n) (t_block p key seed (suc n)),
            length-key_stream n,
            last,
          ))
