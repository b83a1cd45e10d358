-- ===== src/Crypto/DiffieHellman/Agreement.antt =====
-- diffiehellman.go: both ends compute the same secret.
use swu_go.Prelude.{
  ℕ, zero, suc, ◌+◌, ◌-◌, ◌*◌, ◌/◌, ◌%◌, ◌^◌, ◌<◌, ◌≤◌, ◌≡◌, refl, ap, sym, subst, ◌∙◌, Bool, true,
  false, some, [], ◌∷◌, ◌++◌, ◌==◌, eq_of_test, lt→ltb, ltb-false, arith,
}
use swu_go.Prelude.Bytes.{Bytes}
use native.Mathlib.Nat.{
  pow-suc, pow-zero, add-zero, add-suc, mul-zero, mul-suc, mul_comm, mul_assoc, mul-one, add-mul,
  mod-add-div, add-mul-mod_self_left,
}
use swu_go.Crypto.DiffieHellman.{
  DiffieHellman, number_from, bytes_of, byte_length, key_len, public_key_bytes,
  compute_shared_secret,
}

-- Powers modulo p.
distributed : (r p q b : ℕ) → (r + p * q) * b ≡ r * b + p * (q * b)
distributed r p q b = add-mul r (p * q) b ∙ ap (λ z. r * b + z) (mul_assoc p q b)

mod-mul_left : (a b p : ℕ) → a % p * b % p ≡ a * b % p
mod-mul_left a b p = sym (
    ap (λ x. x * b % p) (sym (mod-add-div a p))
    ∙ ap (λ x. x % p) (distributed (a % p) p (a / p) b)
    ∙ add-mul-mod_self_left (a % p * b) p (a / p * b))

mod-pow : (x p n : ℕ) → (x % p) ^ n % p ≡ x ^ n % p
mod-pow x p zero = ap (λ z. z % p) (pow-zero (x % p) ∙ sym (pow-zero x))
mod-pow x p (suc n) =
    ap (λ z. z % p) (pow-suc (x % p) n)
    ∙ sym (mod-mul_left ((x % p) ^ n) (x % p) p)
    ∙ ap (λ z. z * (x % p) % p) (mod-pow x p n)
    ∙ mod-mul_left (x ^ n) (x % p) p
    ∙ ap (λ z. z % p) (mul_comm (x ^ n) (x % p))
    ∙ mod-mul_left x (x ^ n) p
    ∙ ap (λ z. z % p) (mul_comm x (x ^ n) ∙ sym (pow-suc x n))

pow-add : (x a b : ℕ) → x ^ (a + b) ≡ x ^ a * x ^ b
pow-add x a zero =
    ap (λ z. x ^ z) (add-zero a) ∙ sym (mul-one (x ^ a)) ∙ ap (λ z. x ^ a * z) (sym (pow-zero x))
pow-add x a (suc b) =
    ap (λ z. x ^ z) (add-suc a b)
    ∙ pow-suc x (a + b)
    ∙ ap (λ z. z * x) (pow-add x a b)
    ∙ mul_assoc (x ^ a) (x ^ b) x
    ∙ ap (λ z. x ^ a * z) (sym (pow-suc x b))

pow-pow : (x a b : ℕ) → (x ^ a) ^ b ≡ x ^ (a * b)
pow-pow x a zero = pow-zero (x ^ a) ∙ sym (ap (λ z. x ^ z) (mul-zero a) ∙ pow-zero x)
pow-pow x a (suc b) =
    pow-suc (x ^ a) b
    ∙ ap (λ z. z * x ^ a) (pow-pow x a b)
    ∙ sym (pow-add x (a * b) a)
    ∙ ap (λ z. x ^ z) (sym (mul-suc a b))

number_from-append :
    (n : ℕ) (bs : Bytes) (b : ℕ) → number_from n (bs ++ (b ∷ [])) ≡ number_from n bs * 256 + b
unfolding number_from
number_from-append n [] b = refl
number_from-append n (x ∷ bs) b = number_from-append (n * 256 + x) bs b

quotient_small : (v w : ℕ) → v < 256 * w → v / 256 < w
quotient_small v w h = omega arith

quotient_large : (v w : ℕ) → v / 256 < w → v < 256 * w
quotient_large v w h = omega arith

rejoined : (v : ℕ) → v / 256 * 256 + v % 256 ≡ v
rejoined v = omega arith

number_from-bytes_of : (size v : ℕ) → v < 256 ^ size → number_from 0 (bytes_of size v) ≡ v
unfolding number_from bytes_of
number_from-bytes_of zero v h = omega arith
number_from-bytes_of (suc size) v h =
    let front = number_from-bytes_of size (v / 256) (
      quotient_small v (256 ^ size)
        (subst (λ z. v < z) (pow-suc 256 size ∙ mul_comm (256 ^ size) 256) h)) in
    number_from-append 0 (bytes_of size (v / 256)) (v % 256)
    ∙ ap (λ z. z * 256 + v % 256) front
    ∙ rejoined v

zero_small : (n : ℕ) → n ≡ 0 → n < 256 ^ 0
zero_small n h = omega arith

lt_byte_length : (fuel n : ℕ) → n ≤ fuel → n < 256 ^ byte_length fuel n
unfolding byte_length
lt_byte_length zero n h = omega arith
lt_byte_length (suc fuel) n h = by_zero (n == 0) refl (lt_byte_length fuel (n / 256))
  where
    by_zero :
        (b : Bool)
        → (n == 0) ≡ b
        → (n / 256 ≤ fuel → n / 256 < 256 ^ byte_length fuel (n / 256))
        → n < 256 ^ (elim b [ true ↦ 0 | false ↦ suc (byte_length fuel (n / 256)) ])
    by_zero true e ih = zero_small n (eq_of_test n 0 e)
    by_zero false e ih =
        subst (λ z. n < z)
          (sym (
            pow-suc 256 (byte_length fuel (n / 256))
            ∙ mul_comm (256 ^ byte_length fuel (n / 256)) 256))
          (quotient_large n (256 ^ byte_length fuel (n / 256)) (ih (omega arith)))

le_self : (p : ℕ) → p ≤ p
le_self p = omega arith

below : (p y w : ℕ) → y < p - 1 → p < w → y < w
below p y w h k = omega arith

module _ (p g : ℕ) where
  abbrev pub end_with : ℕ → DiffieHellman
  end_with x = record { private_key = x; p = p; g = g; shared_key = [] }

  compute_shared_secret_lem :
      (x y : ℕ)
      → 1 < y
      → y < p - 1
      → compute_shared_secret (end_with x) (bytes_of (key_len (end_with x)) y)
        ≡ some (bytes_of (byte_length p p) (y ^ x % p))
  unfolding compute_shared_secret key_len
  compute_shared_secret_lem x y low high =
      let fits : y < 256 ^ byte_length p p =
        below p y (256 ^ byte_length p p) high (lt_byte_length p p (le_self p)) in
      rw (number_from-bytes_of (byte_length p p) y fits, ltb-false y 2 (low), lt→ltb y (p - 1) high)
        refl

  agreed : (x y : ℕ) → (g ^ x % p) ^ y % p ≡ g ^ (x * y) % p
  agreed x y = mod-pow (g ^ x) p y ∙ ap (λ z. z % p) (pow-pow g x y)

  -- Two ends of one group, each of which gets the public key of the other, and whose public keys both lie
  -- between 1 and p - 1: both compute a secret, and it is the same.
  pub compute_shared_secret-agree :
      (x y : ℕ)
      → 1 < g ^ x % p
      → g ^ x % p < p - 1
      → 1 < g ^ y % p
      → g ^ y % p < p - 1
      → (secret : Bytes) × (compute_shared_secret (end_with x) (public_key_bytes (end_with y))
          ≡ some secret)
        × (compute_shared_secret (end_with y) (public_key_bytes (end_with x)) ≡ some secret)
  unfolding public_key_bytes key_len
  compute_shared_secret-agree x y lx hx ly hy =
      let size = byte_length p p in
      (
        bytes_of size (g ^ (x * y) % p),
        compute_shared_secret_lem x (g ^ y % p) ly hy
            ∙ ap (λ n. some (bytes_of size n)) (agreed y x ∙ ap (λ n. g ^ n % p) (mul_comm y x)),
        compute_shared_secret_lem y (g ^ x % p) lx hx
            ∙ ap (λ n. some (bytes_of size n)) (agreed x y),
      )
