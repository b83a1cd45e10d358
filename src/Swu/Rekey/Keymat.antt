-- ===== src/Swu/Rekey/Keymat.antt =====
-- state_rekey.go: the new keys of the tunnel, out of the key stream.
use swu_go.Prelude.{
  zero, suc, [], ◌∷◌, ap, sym, ◌∙◌, subst, Option, none, some, Bool, false, if◌then◌else◌, ℕ, ◌+◌,
  ◌*◌, ◌≤◌, ◌≡◌, ◌≢◌, refl, true, ◌++◌, ok, ==_false, leb-true, length, take, drop, slice_at, arith,
}
use swu_go.Prelude.Bytes.{Bytes}
use swu_go.Crypto.Choice.{Algorithms}
use swu_go.Crypto.Prf.Stream.{full_stream, prf_plus-full_stream}
use swu_go.Swu.Rekey.Suites.{cipher_bytes, mac_bytes, mac_of, is_gcm, Suits, IsAssociation}
use swu_go.Crypto.{IntegrityAlgorithm}
use swu_go.Ipsec.Esp.{new_security_association, new_security_association_cbc}
use swu_go.Swu.Rekey.{
  association_of, Tunnel, Found, Suite, ChildSa, ChildKeys, choose_suite, cut_keys, sa_out_of,
  sa_in_of, new_associations,
}

take-take : (n t : ℕ) (xs : Bytes) → n ≤ t → take n (take t xs) ≡ take n xs
take-take zero t xs h = refl
take-take (suc n) zero xs h = absurd (omega arith)
take-take (suc n) (suc t) [] h = refl
take-take (suc n) (suc t) (x ∷ xs) h = ap (λ r. x ∷ r) (take-take n t xs (omega arith))

-- A slice that lies in the front.
slice_at-take : (a n t : ℕ) (xs : Bytes) → a + n ≤ t → slice_at a n (take t xs) ≡ slice_at a n xs
slice_at-take zero n t xs h = take-take n t xs (omega arith)
slice_at-take (suc a) n zero xs h = absurd (omega arith)
slice_at-take (suc a) n (suc t) [] h = refl
slice_at-take (suc a) n (suc t) (x ∷ xs) h = slice_at-take a n t xs (omega arith)

-- The lengths of the keys for the numbers in `f`, and the four keys that stand in a stream one behind the other.
abbrev pub enc_bytes : Found → ℕ
enc_bytes f = cipher_bytes f.encr_id f.encr_key_len_bits

abbrev pub integ_bytes : Found → ℕ
integ_bytes f = mac_bytes f.encr_id f.integ_id

module _ (algs : Algorithms) (f : Found) (stream : Bytes) (spi remote : ℕ) where
  abbrev pub IsOutbound : ChildSa → Type 0
  IsOutbound sa =
      IsAssociation algs f spi remote (slice_at 0 (enc_bytes f) stream)
        (slice_at (enc_bytes f) (integ_bytes f) stream) sa

  abbrev pub IsInbound : ChildSa → Type 0
  IsInbound sa =
      IsAssociation algs f spi remote (slice_at (enc_bytes f + integ_bytes f) (enc_bytes f) stream)
        (slice_at (enc_bytes f + integ_bytes f + enc_bytes f) (integ_bytes f) stream) sa

none_of_if : {A : Type 0} (b : Bool) (x : A) → (if b then none else some x) ≡ none → b ≡ true
none_of_if true x h = refl
none_of_if false x h = cc

some_of_if : {A : Type 0} (b : Bool) (x a : A) → (if b then none else some x) ≡ some a → b ≡ false
some_of_if true x a h = cc
some_of_if false x a h = refl

-- With the algorithms of a suite that fits; an AEAD drops the integrity key, which is empty.
association_of-IsAssociation :
    (algs : Algorithms) (f : Found) (u : Suite) (spi remote : ℕ) (enc_key integ_key : Bytes)
    → Suits algs f u
    → (is_gcm f.encr_id ≡ true → integ_key ≡ [])
    → IsAssociation algs f spi remote enc_key integ_key
        (record { association = association_of u spi enc_key integ_key; remote_spi = remote })
unfolding new_security_association new_security_association_cbc
association_of-IsAssociation algs f u spi remote enc_key integ_key (he, hi, hc, hm) empty =
    by_mac u.integrity hm
  where
    by_mac :
        (o : Option IntegrityAlgorithm)
        → o ≡ mac_of algs f.encr_id f.integ_id
        → IsAssociation algs f spi remote enc_key integ_key (record {
          association = elim o [
            | none ↦ new_security_association spi u.encrypter enc_key []
            | some integ ↦ new_security_association_cbc spi u.encrypter enc_key integ integ_key
          ];
          remote_spi = remote;
        })
    by_mac none h =
        let gcm = none_of_if (is_gcm f.encr_id) (algs.integrity f.integ_id) (sym h) in
        record {
          own_spi = refl;
          other_spi = refl;
          cipher = hc;
          cipher_key = refl;
          mac = h;
          mac_key = sym (empty gcm);
          kind = sym gcm;
          fresh = refl;
        }
    by_mac (some a) h = record {
      own_spi = refl;
      other_spi = refl;
      cipher = hc;
      cipher_key = refl;
      mac = h;
      mac_key = refl;
      kind = sym (some_of_if (is_gcm f.encr_id) (algs.integrity f.integ_id) a (sym h));
      fresh = refl;
    }

no_mac : (b : Bool) (n : ℕ) (xs : Bytes) → b ≡ true → take (if b then 0 else n) xs ≡ []
no_mac true n xs h = refl
no_mac false n xs h = cc

module _ (algs : Algorithms) (f : Found) (u : Suite) (stream : Bytes) (suits : Suits algs f u) where
  abbrev pub keys_of : ChildKeys
  keys_of = cut_keys u.enc_len u.integ_len (take (2 * (u.enc_len + u.integ_len)) stream)

  made :
      (a b spi remote : ℕ)
      → a + u.enc_len ≤ 2 * (u.enc_len + u.integ_len)
      → b + u.integ_len ≤ 2 * (u.enc_len + u.integ_len)
      → let mat = take (2 * (u.enc_len + u.integ_len)) stream in
        IsAssociation algs f spi remote
          (slice_at a (enc_bytes f) stream)
          (slice_at b (integ_bytes f) stream)
          (record {
            association =
                association_of u spi (slice_at a u.enc_len mat) (slice_at b u.integ_len mat);
            remote_spi = remote;
          })
  made a b spi remote ha hb =
      let total = 2 * (u.enc_len + u.integ_len) in
      let ek = slice_at-take a u.enc_len total stream ha ∙ ap (λ n. slice_at a n stream) suits.0 in
      let ik =
        slice_at-take b u.integ_len total stream hb ∙ ap (λ n. slice_at b n stream) suits.1 in
      let mat = take total stream in
      let sa : ChildSa = record {
        association = association_of u spi (slice_at a u.enc_len mat) (slice_at b u.integ_len mat);
        remote_spi = remote;
      } in
      subst (λ k. IsAssociation algs f spi remote k (slice_at b (integ_bytes f) stream) sa) ek
        (subst (λ k. IsAssociation algs f spi remote (slice_at a u.enc_len mat) k sa) ik
          (association_of-IsAssociation algs f u spi remote (slice_at a u.enc_len mat)
            (slice_at b u.integ_len mat) suits
            (λ gcm. ik ∙ no_mac (is_gcm f.encr_id) _ (drop b stream) gcm)))

  pub sa_out_of-IsOutbound :
      (spi own : ℕ) → IsOutbound algs f stream spi own (sa_out_of u keys_of spi own)
  unfolding cut_keys
  sa_out_of-IsOutbound spi own =
      subst
        (λ n.
          IsAssociation algs f spi own (slice_at 0 (enc_bytes f) stream)
            (slice_at n (integ_bytes f) stream) (sa_out_of u keys_of spi own))
        suits.0 (made 0 u.enc_len spi own (omega arith) (omega arith))

  pub sa_in_of-IsInbound :
      (spi own : ℕ) → IsInbound algs f stream own spi (sa_in_of u keys_of spi own)
  unfolding cut_keys
  sa_in_of-IsInbound spi own =
      let e = u.enc_len in
      let i = u.integ_len in
      subst
        (λ n.
          IsAssociation algs f own spi (slice_at (enc_bytes f + n) (enc_bytes f) stream)
            (slice_at (enc_bytes f + n + enc_bytes f) (integ_bytes f) stream)
            (sa_in_of u keys_of spi own))
        suits.1
        (subst
          (λ n.
            IsAssociation algs f own spi (slice_at (n + i) (enc_bytes f) stream)
              (slice_at (n + i + n) (integ_bytes f) stream) (sa_in_of u keys_of spi own))
          suits.0 (made (e + i) (e + i + e) own spi (omega arith) (omega arith)))

-- The associations that a response makes, if the stream is long enough.
pub new_associations-take :
    (algs : Algorithms) (c : Tunnel) (ni nr : Bytes) (new_spi : ℕ) (f : Found) (u : Suite)
    (old_out old_in : ChildSa)
    → f.resp_sa ≡ true
    → f.resp_nonce ≡ some nr
    → f.encr_id ≢ 0
    → choose_suite algs f ≡ ok u
    → c.child_sa_out ≡ some old_out
    → c.child_sa_in ≡ some old_in
    → let stream = full_stream c.prf_alg c.session.keys.sk_d (ni ++ nr) in
      let total = 2 * (u.enc_len + u.integ_len) in
      total ≤ length stream
      → new_associations algs c ni new_spi f
        ≡ ok (
          sa_out_of u (cut_keys u.enc_len u.integ_len (take total stream)) f.resp_spi new_spi,
          sa_in_of u (cut_keys u.enc_len u.integ_len (take total stream)) f.resp_spi new_spi,
          old_out.association.spi,
        )
unfolding new_associations choose_suite
new_associations-take algs c ni nr new_spi f u old_out old_in hs hn he hu ho hi long =
    let stream = full_stream c.prf_alg c.session.keys.sk_d (ni ++ nr) in
    let total = 2 * (u.enc_len + u.integ_len) in
    rw
      (
        hs,
        hn,
        ==_false f.encr_id 0 he,
        hu,
        prf_plus-full_stream c.prf_alg c.session.keys.sk_d (ni ++ nr) total,
        leb-true total (length stream) long,
        ho,
        hi,
      )
      refl
