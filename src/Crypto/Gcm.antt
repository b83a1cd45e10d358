-- ===== src/Crypto/Gcm.antt =====
-- pkg/crypto/encrypt.go: aesGCM, whose Encrypt and Decrypt append the IV to the salt at the end of the key,
-- over AES-GCM of Go's crypto/aes and crypto/cipher as a parameter.
use swu_go.Prelude.{
  ℕ, zero, suc, ◌+◌, ◌-◌, ◌≤◌, ◌≡◌, refl, ap, sym, subst, Bool, true, false, Option, none, some, [],
  ◌∷◌, ◌++◌, Result, ok, err, panic, if◌then◌else◌, ◌==◌, not, leb, leb-true, shorter, length, take,
  drop, slice_at, arith,
}
use swu_go.Prelude.Bytes.{Bytes, overwrite}

-- `accepts` is the test of the key's size; `seal` and `unseal` take the key, the nonce, the text and the
-- additional data.
pub record AesGcm : Type 0 where
  pub accepts : Bytes → Bool
  pub seal : Bytes → Bytes → Bytes → Bytes → Bytes
  pub unseal : Bytes → Bytes → Bytes → Bytes → Option Bytes

pub data GcmError : Type 0 where
  key_too_short : GcmError
  bad_key : GcmError
  not_authentic : GcmError

-- `append` to a slice that ends at `last` of the buffer `mem`, which has no room behind its end.
unfoldable pub append_in_place : ℕ → Bytes → Bytes → Bytes
append_in_place last bs mem =
    if leb (last + length bs) (length mem) then overwrite last bs mem else mem

-- The key is the `n` bytes from `at` on of the key stream `mem`. A nonce of another length than 12 is a panic
-- of package cipher.
unfoldable pub aes_gcm :
    AesGcm
    → Bytes
    → ℕ
    → ℕ
    → Bytes
    → (Bytes → Bytes → Result GcmError Bytes)
    → Bytes × Result GcmError Bytes
aes_gcm g mem at n iv run =
    let key = slice_at at n mem in
    let real_key = take (n - 4) key in
    let nonce = drop (n - 4) key ++ iv in
    if shorter key 4
    then (mem, err key_too_short)
    else if not (g.accepts real_key)
    then (mem, err bad_key)
    else (append_in_place (at + n) iv mem, if length nonce == 12 then run real_key nonce else panic)

unfoldable pub aes_gcm_encrypt :
    AesGcm → Bytes → ℕ → ℕ → Bytes → Bytes → Bytes → Bytes × Result GcmError Bytes
aes_gcm_encrypt g mem at n text iv aad =
    aes_gcm g mem at n iv (λ key nonce. ok (g.seal key nonce text aad))

abbrev opened : Option Bytes → Result GcmError Bytes
opened none = err not_authentic
opened (some text) = ok text

unfoldable pub aes_gcm_decrypt :
    AesGcm → Bytes → ℕ → ℕ → Bytes → Bytes → Bytes → Bytes × Result GcmError Bytes
aes_gcm_decrypt g mem at n cipher iv aad =
    aes_gcm g mem at n iv (λ key nonce. opened (g.unseal key nonce cipher aad))

take-overwrite : (n : ℕ) (bs mem : Bytes) → take n (overwrite n bs mem) ≡ take n mem
unfolding overwrite
take-overwrite zero bs mem = refl
take-overwrite (suc n) bs [] = refl
take-overwrite (suc n) bs (x ∷ mem) = ap (λ r. x ∷ r) (take-overwrite n bs mem)

slice_at-overwrite :
    (a n last : ℕ) (bs mem : Bytes)
    → a + n ≡ last
    → slice_at a n (overwrite last bs mem) ≡ slice_at a n mem
unfolding overwrite
slice_at-overwrite zero n last bs mem h =
    subst (λ k. take k (overwrite last bs mem) ≡ take k mem) (sym (zero_add h))
      (take-overwrite last bs mem)
  where
    zero_add : {n last : ℕ} → 0 + n ≡ last → n ≡ last
    zero_add h = omega arith
slice_at-overwrite (suc a) n zero bs mem h = absurd (omega arith)
slice_at-overwrite (suc a) n (suc last) bs [] h = refl
slice_at-overwrite (suc a) n (suc last) bs (x ∷ mem) h =
    slice_at-overwrite a n last bs mem (omega arith)

written :
    (n : ℕ) (bs mem : Bytes)
    → n + length bs ≤ length mem
    → slice_at n (length bs) (overwrite n bs mem) ≡ bs
unfolding overwrite
written zero [] mem h = refl
written zero (b ∷ bs) [] h = absurd (omega arith)
written zero (b ∷ bs) (x ∷ mem) h = ap (λ r. b ∷ r) (written zero bs mem (omega arith))
written (suc n) bs [] h = absurd (omega arith)
written (suc n) bs (x ∷ mem) h = written n bs mem (omega arith)

-- A call that gets to the cipher, with room for the IV behind the key: the key stays, and the next bytes of the
-- key stream become the IV, so a key that stands there is lost.
aes_gcm-IsOverwritten :
    (g : AesGcm) (mem : Bytes) (at n : ℕ) (iv : Bytes) (run : Bytes → Bytes → Result GcmError Bytes)
    → shorter (slice_at at n mem) 4 ≡ false
    → g.accepts (take (n - 4) (slice_at at n mem)) ≡ true
    → at + n + length iv ≤ length mem
    → (slice_at at n (aes_gcm g mem at n iv run).0 ≡ slice_at at n mem)
      × (slice_at (at + n) (length iv) (aes_gcm g mem at n iv run).0 ≡ iv)
unfolding aes_gcm append_in_place
aes_gcm-IsOverwritten g mem at n iv run long good room = (
  rw (long, good, leb-true (at + n + length iv) (length mem) room)
      (slice_at-overwrite at n (at + n) iv mem refl),
  rw (long, good, leb-true (at + n + length iv) (length mem) room) (written (at + n) iv mem room),
)
