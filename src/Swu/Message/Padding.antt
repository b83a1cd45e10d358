-- ===== src/Swu/Message/Padding.antt =====
-- msg_handler.go: the padding of CBC messages.
use swu_go.Prelude.{
  ℕ, zero, suc, ◌+◌, ◌-◌, ◌%◌, ◌≤◌, ◌<◌, ◌≡◌, refl, sym, append_assoc, ap, ◌∙◌, false, Bool-cases,
  inl, inr, [], ◌∷◌, ◌++◌, ok, ==_false, ◌==◌, if◌then◌else◌, shorter-false, length, length-append,
  length-replicate, replicate, take-append_eq, arith,
}
use swu_go.Prelude.Bytes.{Bytes, byte_at}
use swu_go.Swu.Session.{Session}
use swu_go.Swu.Message.{pad_len, pad, unpad}
use native.Mathlib.Nat.{mod-lt, mod-add-mod, mod_self}

pub pad_len-lt : (b n : ℕ) → 0 < b → pad_len b n < b
pad_len-lt b n h = ground arith

-- Text, padding and its length byte fill whole blocks.
pub pad_len_whole : (b n : ℕ) → 0 < b → (n + (pad_len b n + 1)) % b ≡ 0
pad_len_whole b n h = elim (Bool-cases ((n + 1) % b == 0)) [
  | inl e ↦ rw e (ground arith)
  | inr e ↦ rw e (
      ap (λ k. k % b) step
      ∙ (sym (mod-add-mod (n + 1) b (b - (n + 1) % b)) ∙ (ap (λ k. k % b) back ∙ mod_self b)))
]
  where
    step : n + (b - (n + 1) % b + 1) ≡ n + 1 + (b - (n + 1) % b)
    step = omega arith

    back : (n + 1) % b + (b - (n + 1) % b) ≡ b
    back = omega (arith, mod-lt (n + 1) h)

-- A text with `n` bytes of padding.
abbrev pub padded : ℕ → Bytes → Bytes
padded n inner = inner ++ (replicate n 0 ++ (n ∷ []))

pub length-padded : (n : ℕ) (inner : Bytes) → length (padded n inner) ≡ length inner + (n + 1)
length-padded n inner = omega (
  arith,
  length-append inner (replicate n 0 ++ (n ∷ [])),
  length-append (replicate n 0) (n ∷ []),
  length-replicate {A = ℕ} n 0,
)

pub byte_past :
    (xs : Bytes) (y : ℕ) (ys : Bytes) (k : ℕ) → k ≡ length xs → byte_at k (xs ++ (y ∷ ys)) ≡ y
byte_past [] y ys zero e = refl
byte_past [] y ys (suc k) e = absurd (omega arith)
byte_past (x ∷ xs) y ys zero e = absurd (omega arith)
byte_past (x ∷ xs) y ys (suc k) e = byte_past xs y ys k (omega arith)

last_byte_of : (n : ℕ) (inner : Bytes) → byte_at (length (padded n inner) - 1) (padded n inner) ≡ n
last_byte_of n inner =
    ap (byte_at (length (padded n inner) - 1))
      (sym (append_assoc inner (replicate n zeros) (n ∷ [])))
    ∙ byte_past (inner ++ replicate n zeros) n [] (length (padded n inner) - 1) (
        omega (
          arith,
          length-padded n inner,
          length-append inner (replicate n zeros),
          length-replicate n zeros,
        ))
  where
    zeros : ℕ
    zeros = 0

-- A session that does not use an AEAD takes the padding off again.
unpad-padded :
    (s : Session) (n : ℕ) (inner : Bytes)
    → s.ike_is_aead ≡ false
    → unpad s (padded n inner) ≡ ok inner
unfolding unpad
unpad-padded s n inner e =
    rw
      (
        e,
        shorter-false (padded n inner) 1 (omega (arith, length-padded n inner)),
        last_byte_of n inner,
        shorter-false (padded n inner) (1 + n) (omega (arith, length-padded n inner)),
      )
      (ap ok (
        take-append_eq (length (padded n inner) - 1 - n) inner _
          (omega (arith, length-padded n inner))))

-- The ciphertext that is expected for a plaintext is longer by the tag of an AEAD.
abbrev pub overhead : Session → ℕ
overhead s = if s.ike_is_aead then 16 else 0

-- `pad` succeeds: its text fills whole blocks unless an AEAD is used, has at most a block more than the
-- input, and `unpad` gives the input back.
pub unpad-pad :
    (s : Session) (inner : Bytes)
    → 0 < s.enc_alg.block_size
    → s.enc_alg.block_size ≤ 256
    → (plain : Bytes) × (pad s inner ≡ ok (plain, length plain + overhead s))
      × (length plain ≤ length inner + 256)
      × (s.ike_is_aead ≡ false → length plain % s.enc_alg.block_size ≡ 0)
      × (unpad s plain ≡ ok inner)
unfolding pad
unpad-pad s inner h k = elim (Bool-cases s.ike_is_aead) [
  | inl e ↦ (inner, rw e refl, omega arith, (λ f. cc), unfold unpad in rw e refl)
  | inr e ↦
      let b = s.enc_alg.block_size in
      let n = pad_len b (length inner) in
      let small : n < b = pad_len-lt b (length inner) h in
      let byte : n % 256 ≡ n = omega arith in
      (
        padded n inner,
        rw (e, ==_false b 0 (λ z. absurd (omega arith)), byte)
            (ap (λ (k : ℕ). ok (padded n inner, k)) (omega arith)),
        omega (arith, length-padded n inner),
        (λ f. rw (length-padded n inner) (pad_len_whole b (length inner) h)),
        unpad-padded s n inner e,
      )
]
