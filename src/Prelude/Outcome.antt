-- ===== src/Prelude/Outcome.antt =====
-- Go's (value, error) pair as a value, with the run-time panic and, for a loop on fuel, the case
-- that the fuel ran out, which is no Go result.
use mathlib.Core.Path.{◌≡◌, refl}
use mathlib.Core.Bool.{Bool, true, false}
use swu_go.Prelude.Tests.{if◌then◌else◌}
use swu_go.Prelude.Lists.{shorter}
use Prim.Native.Nat.{ℕ}
use mathlib.Core.List.{List}

pub data Result {ℓ} (E : Type ℓ) (A : Type ℓ) : Type ℓ where
  ok : A → Result E A
  err : E → Result E A
  panic : Result E A
  stuck : Result E A

infixl 5 ◌>>=◌ ◌>>◌
abbrev pub ◌>>=◌ {ℓ} : {E A B : Type ℓ} → Result E A → (A → Result E B) → Result E B
stuck >>= next = stuck
panic >>= next = panic
err x >>= next = err x
ok y >>= next = next y

abbrev pub ◌>>◌ {ℓ} : {E B : Type ℓ} → Result E (Unit {ℓ}) → Result E B → Result E B
r >> after = r >>= λ done. after

-- `if b { return nil, e }`
abbrev pub fail_if : {E : Type 0} → Bool → E → Result E (Unit {0})
fail_if true e = err e
fail_if false e = ok tt

-- An index below `n`, or a slice up to it, is out of range of a shorter buffer.
abbrev pub need : {E A B : Type 0} → ℕ → List B → Result E A → Result E A
need n buf r = if shorter buf n then panic else r

-- The code returns: it gives a value or an error, it does not panic, and its loops end.
abbrev pub Returns {ℓ} : {E A : Type ℓ} → Result E A → Type 0
Returns (ok a) = Unit {0}
Returns (err e) = Unit {0}
Returns panic = ⊥
Returns stuck = ⊥

pub >>=-Returns {ℓ} :
    {E A B : Type ℓ} (r : Result E A) (f : A → Result E B)
    → Returns r
    → ((a : A) → Returns (f a))
    → Returns (r >>= f)
>>=-Returns (ok a) f h k = k a
>>=-Returns (err e) f h k = tt
>>=-Returns panic f h k = h
>>=-Returns stuck f h k = h

pub if-Returns {ℓ} :
    {E A : Type ℓ} (b : Bool) (x y : Result E A)
    → (b ≡ true → Returns x)
    → (b ≡ false → Returns y)
    → Returns (if b then x else y)
if-Returns true x y h k = h refl
if-Returns false x y h k = k refl

-- A guard that an answer has passed.
pub guard-ok {ℓ} :
    {E A : Type ℓ} (b : Bool) (e : E) (x : Result E A) (a : A)
    → ◌≡◌ {A = Result E A} (if b then err e else x) (ok a)
    → x ≡ ok a
guard-ok true e x a h = cc
guard-ok false e x a h = h
