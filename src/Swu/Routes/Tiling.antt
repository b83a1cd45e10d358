-- ===== src/Swu/Routes/Tiling.antt =====
-- routes.go: the blocks of a range tile it.
use swu_go.Prelude.{
  ℕ, zero, suc, ◌+◌, ◌-◌, ◌*◌, ◌/◌, ◌%◌, ◌^◌, ◌≤◌, ◌<◌, ◌≡◌, refl, ap, sym, ◌∙◌, subst, ◌↔◌, ◌⊎◌,
  inl, inr, true, false, Bool-cases, List, [], ◌∷◌, some, ok, ltb, leb, ltb→lt, ltb-false, All,
  leb-false, ◌==◌, eq_of_test, length, arith,
}
use swu_go.Prelude.Bytes.{Bytes, IsByte, u32_at}
use native.Mathlib.Nat.{
  pow-suc, suc-mul, mul_assoc, mul_comm, mul-div_cancel, div-mul-le_self, lt-div-mul-add,
  div-eq_of_lt-le,
}
use swu_go.Swu.Selector.{to4}
use swu_go.Swu.Selector.Ranges.{be_value, be_value_lt, u32-be_value}
use swu_go.Swu.Selector.Covers.{length-to4}
use swu_go.Swu.Routes.{trailing_zeros, max_block, shrink, cidrs_from, ipv4_range_to_cidrs}

-- Blocks that lie behind one another from `first` up to `end`: each has a prefix of 32 bits at most, and
-- its first address is a multiple of its size, so that it is all the addresses with that prefix.
abbrev pub Tiles : ℕ → ℕ → List (ℕ × ℕ) → Type 0
Tiles first end [] = first ≡ end
Tiles first end ((a, p) ∷ blocks) =
    (a ≡ first)
    × (p ≤ 32)
    × (q : ℕ) × (a ≡ q * 2 ^ (32 - p))
    × Tiles (first + 2 ^ (32 - p)) end blocks

-- A number is a multiple of 2 ^ k for the `k` of its trailing zeros, and of each smaller one.
Multiple : ℕ → ℕ → Type 0
Multiple n k = (q : ℕ) × (n ≡ q * 2 ^ k)

Multiple-zero : (n : ℕ) → Multiple n 0
unfolding Multiple
Multiple-zero n = (n, omega arith)

Multiple-twice : (n k : ℕ) → n % 2 ≡ 0 → Multiple (n / 2) k → Multiple n (suc k)
unfolding Multiple
Multiple-twice n k even (q, e) =
    let half : n ≡ n / 2 * 2 = omega arith in
    (q, half ∙ (ap (λ m. m * 2) e ∙ (mul_assoc q (2 ^ k) 2 ∙ ap (λ m. q * m) (sym (pow-suc 2 k)))))

Multiple-pred : (n k : ℕ) → Multiple n (suc k) → Multiple n k
unfolding Multiple
Multiple-pred n k (q, e) =
    (q * 2, e ∙ (ap (λ m. q * m) (pow-suc 2 k ∙ mul_comm (2 ^ k) 2) ∙ sym (mul_assoc q 2 (2 ^ k))))

trailing_zeros-Multiple :
    (fuel n : ℕ) → Multiple n (trailing_zeros fuel n) × (trailing_zeros fuel n ≤ fuel)
unfolding trailing_zeros
trailing_zeros-Multiple zero n = (Multiple-zero n, omega arith)
trailing_zeros-Multiple (suc fuel) n = elim (Bool-cases (n % 2 == 0)) [
  | inr odd ↦ rw (odd, trailing_zeros) (Multiple-zero n, omega arith)
  | inl even ↦
      let (m, le) = trailing_zeros-Multiple fuel (n / 2) in
      rw (even, trailing_zeros)
        (Multiple-twice n (trailing_zeros fuel (n / 2)) (eq_of_test (n % 2) 0 even) m, omega arith)
]

zero-Multiple : (n : ℕ) → n ≡ 0 → Multiple n 32
unfolding Multiple
zero-Multiple n e = (0, omega arith)

max_block-Multiple : (n : ℕ) → Multiple n (max_block n) × (max_block n ≤ 32)
unfolding max_block
max_block-Multiple n = elim (Bool-cases (n == 0)) [
  | inl is_zero ↦ rw (is_zero, max_block) (zero-Multiple n (eq_of_test n 0 is_zero), omega arith)
  | inr nonzero ↦ rw (nonzero, max_block) (trailing_zeros-Multiple 32 n)
]

not_above : (a b : ℕ) → ltb a b ≡ false → b ≤ a
not_above a b h = ground arith

-- What the shrunk exponent is good for.
shrink-Multiple :
    (n k remaining : ℕ)
    → 1 ≤ remaining
    → Multiple n k
    → Multiple n (shrink k remaining)
      × (shrink k remaining ≤ k)
      × (2 ^ shrink k remaining ≤ remaining)
unfolding shrink
shrink-Multiple n zero remaining pos h = (h, omega arith, omega arith)
shrink-Multiple n (suc k) remaining pos h = elim (Bool-cases (ltb remaining (2 ^ suc k))) [
  | inl big ↦
      let (m, le, fits) = shrink-Multiple n k remaining pos (Multiple-pred n k h) in
      rw (big, shrink) (m, omega arith, fits)
  | inr fits ↦ rw (fits, shrink) (h, omega arith, not_above remaining (2 ^ suc k) fits)
]

one_le_two_pow : (k : ℕ) → 1 ≤ 2 ^ k
one_le_two_pow zero = omega arith
one_le_two_pow (suc k) = omega (arith, one_le_two_pow k, pow-suc 2 k)

cidrs_from-Tiles :
    (fuel cur last : ℕ)
    → last < 2 ^ 32
    → cur ≤ suc last
    → suc last ≤ cur + fuel
    → (blocks : List (ℕ × ℕ)) × (cidrs_from fuel cur last ≡ ok blocks) × Tiles cur (suc last) blocks
unfolding cidrs_from Multiple
cidrs_from-Tiles zero cur last h le f =
    ([], rw (leb-false cur last (omega arith)) refl, omega arith)
cidrs_from-Tiles (suc fuel) cur last h le f = elim (Bool-cases (leb cur last)) [
  | inr done ↦ ([], rw (done, cidrs_from) refl, is_end cur last le done)
  | inl more ↦
      let below : cur ≤ last = le_of_test cur last more in
      let (zeros, small) = max_block-Multiple cur in
      let remaining = last - cur + 1 in
      let (aligned, less, fits) =
        shrink-Multiple cur (max_block cur) remaining (omega arith) zeros in
      let k = shrink (max_block cur) remaining in
      let pos = one_le_two_pow k in
      let (blocks, e, tiles) =
        cidrs_from-Tiles fuel (cur + 2 ^ k) last h (omega arith) (omega arith) in
      let low : cur % 2 ^ 32 ≡ cur = omega arith in
      let (q, multiple) = aligned in
      let back : 32 - (32 - k) ≡ k = omega arith in
      (
        (cur % 2 ^ 32, 32 - k) ∷ blocks,
        rw (more, cidrs_from) (rw e refl),
        rw back (low, omega arith, q, low ∙ multiple, tiles),
      )
]
  where
    is_end : (a b : ℕ) → a ≤ suc b → leb a b ≡ false → a ≡ suc b
    is_end a b h k = ground arith

    le_of_test : (a b : ℕ) → leb a b ≡ true → a ≤ b
    le_of_test a b h = ground arith

-- The prefix of the address is that of the block.
abbrev pub InBlock : ℕ → ℕ × ℕ → Type 0
InBlock x (a, p) = x / 2 ^ (32 - p) ≡ a / 2 ^ (32 - p)

abbrev pub InSome : ℕ → List (ℕ × ℕ) → Type 0
InSome x [] = ⊥
InSome x (block ∷ blocks) = InBlock x block ⊎ InSome x blocks

one_more : (q n : ℕ) → (q + 1) * n ≡ q * n + n
one_more q n = let step : q + 1 ≡ suc q = omega arith in ap (λ m. m * n) step ∙ suc-mul q n

quotient_iff : (x q n : ℕ) → 1 ≤ n → (x / n ≡ q * n / n) ↔ ((q * n ≤ x) × (x < q * n + n))
quotient_iff x q n pos = (
  λ e.
      let same : x / n ≡ q = e ∙ mul-div_cancel q pos in
      (
        subst (λ r. r * n ≤ x) same (div-mul-le_self x n),
        subst (λ r. x < r * n + n) same (lt-div-mul-add pos),
      ),
  λ (low, high). div-eq_of_lt-le n low (rw (one_more q n) high) ∙ sym (mul-div_cancel q pos),
)

block_iff :
    (x a p q : ℕ) → a ≡ q * 2 ^ (32 - p) → InBlock x (a, p) ↔ ((a ≤ x) × (x < a + 2 ^ (32 - p)))
block_iff x a p q e = rw e (quotient_iff x q (2 ^ (32 - p)) (one_le_two_pow (32 - p)))

Tiles-le : (first end : ℕ) (blocks : List (ℕ × ℕ)) → Tiles first end blocks → first ≤ end
Tiles-le first end [] e = omega arith
Tiles-le first end ((a, p) ∷ blocks) (ea, hp, q, eq, tiles) =
    omega (arith, Tiles-le (first + 2 ^ (32 - p)) end blocks tiles)

-- Two ranges that meet.
join_ranges :
    {P Q : Type 0} (x first mid end : ℕ)
    → first ≤ mid
    → mid ≤ end
    → P ↔ ((first ≤ x) × (x < mid))
    → Q ↔ ((mid ≤ x) × (x < end))
    → (P ⊎ Q) ↔ ((first ≤ x) × (x < end))
join_ranges {P = P} {Q = Q} x first mid end h k p q = (both, one_of)
  where
    both : P ⊎ Q → (first ≤ x) × (x < end)
    both (inl here) = let (low, high) = p.0 here in (low, omega arith)
    both (inr there) = let (low, high) = q.0 there in (omega arith, high)

    one_of : (first ≤ x) × (x < end) → P ⊎ Q
    one_of (low, high) = elim (Bool-cases (ltb x mid)) [
      | inl below ↦ inl (p.1 (low, ltb→lt x mid below))
      | inr above ↦ inr (q.1 (not_above x mid above, high))
    ]

pub Tiles-InSome :
    (x first end : ℕ) (blocks : List (ℕ × ℕ))
    → Tiles first end blocks
    → InSome x blocks ↔ ((first ≤ x) × (x < end))
Tiles-InSome x first end [] e = (λ h. absurd h, λ (low, high). absurd (omega arith))
Tiles-InSome x first end ((a, p) ∷ blocks) (ea, hp, q, eq, tiles) =
    join_ranges x first (first + 2 ^ (32 - p)) end (omega arith)
      (Tiles-le (first + 2 ^ (32 - p)) end blocks tiles)
      (subst (λ m. InBlock x (a, p) ↔ ((m ≤ x) × (x < m + 2 ^ (32 - p)))) ea (block_iff x a p q eq))
      (Tiles-InSome x (first + 2 ^ (32 - p)) end blocks tiles)

u32_lt : (xs : Bytes) → length xs ≡ 4 → All IsByte xs → u32_at 0 xs < 2 ^ 32
u32_lt xs h bytes =
    subst (λ n. n < 2 ^ 32) (sym (u32-be_value xs h))
      (subst (λ n. be_value xs < 256 ^ n) h (be_value_lt xs bytes))

-- For two IPv4 addresses in order, ipv4RangeToCIDRs ends and gives blocks without an error. They lie
-- behind one another from the first address to the last, each aligned to its size and with a prefix of
-- at most 32 bits; so an address has the prefix of one of the blocks exactly if it is in the range.
pub ipv4_range_to_cidrs-InSome :
    (first last s e : Bytes)
    → to4 first ≡ some s
    → to4 last ≡ some e
    → All IsByte e
    → u32_at 0 s ≤ u32_at 0 e
    → (blocks : List (ℕ × ℕ)) × (ipv4_range_to_cidrs first last ≡ ok blocks)
      × Tiles (u32_at 0 s) (suc (u32_at 0 e)) blocks
      × ((x : ℕ) → InSome x blocks ↔ ((u32_at 0 s ≤ x) × (x ≤ u32_at 0 e)))
unfolding ipv4_range_to_cidrs
ipv4_range_to_cidrs-InSome first last s e hs he bytes le =
    let low = u32_at 0 s in
    let high = u32_at 0 e in
    let (blocks, found, tiles) =
      cidrs_from-Tiles (suc high) low high (u32_lt e (length-to4 last e he) bytes) (omega arith)
        (omega arith) in
    (
      blocks,
      rw (hs, he) (rw (ltb-false high low le) found),
      tiles,
      λ x. closed (InSome x blocks) low high x (Tiles-InSome x low (suc high) blocks tiles),
    )
  where
    closed : (P : Type 0) (a b x : ℕ) → P ↔ ((a ≤ x) × (x < suc b)) → P ↔ ((a ≤ x) × (x ≤ b))
    closed P a b x (f, g) =
        (λ p. let (l, h) = f p in (l, omega arith), λ (l, h). g (l, omega arith))
