-- ===== src/Swu/Message/Payloads.antt =====
-- msg_handler.go: parsePayloads reads what DecodePacket reads, and so what Encode wrote.
use swu_go.Prelude.{
  ℕ, zero, suc, ◌+◌, ◌-◌, ◌*◌, ◌≡◌, refl, Bool, true, false, List, [], ◌∷◌, map, Result, ok, err,
  panic, stuck, ◌>>=◌, ◌>>◌, fail_if, ltb, ◌==◌, if◌then◌else◌, shorter, length, drop, take, All,
  Bool-cases, inl, inr, arith,
}
use swu_go.Prelude.Bytes.{Bytes}
use swu_go.Ikev2.Types.{Error, no_payload_body}
use swu_go.Ikev2.Header.{decode_payload_header}
use swu_go.Ikev2.Payload.{Payload, decode_payload}
use swu_go.Ikev2.Payload.RoundTrip.{settle}
use swu_go.Ikev2.Packet.{first_type, encode_chain, decode_chain, in_payload}
use swu_go.Ikev2.Packet as Packet
use swu_go.Ikev2.Packet.RoundTrip.{FitsPayload, decode_chain-encode_chain}
use swu_go.Swu.Error.{SwuError, lift, payload_too_short}
use swu_go.Swu.Message.{next_payload, parse_loop, parse_payloads}

-- The two loops differ in their errors only.
agree_decoded :
    (b c : Bool) (t next n : ℕ) (r : Result Error Payload) (x : Payload × ℕ × ℕ)
    → ◌≡◌ {A = Result Error (Payload × ℕ × ℕ)}
        (if b
          then err no_payload_body
          else if c
          then panic
          else (in_payload t r >>= λ p. ok (p, next, n)))
        (ok x)
    → ◌≡◌ {A = Result SwuError (Payload × ℕ × ℕ)}
        (fail_if b payload_too_short >> (if c then panic else (lift r >>= λ p. ok (p, next, n))))
        (ok x)
agree_decoded true c t next n r x h = cc
agree_decoded false true t next n r x h = cc
agree_decoded false false t next n (ok p) x h = cc
agree_decoded false false t next n (err e) x h = cc
agree_decoded false false t next n panic x h = cc
agree_decoded false false t next n stuck x h = cc

agree :
    (t : ℕ) (buf : Bytes) (x : Payload × ℕ × ℕ)
    → Packet.next_payload t buf ≡ ok x
    → (shorter buf 4 ≡ false) × (next_payload t buf ≡ ok x)
unfolding Packet.next_payload next_payload decode_payload_header
agree t [] x h = cc
agree t (a ∷ []) x h = cc
agree t (a ∷ (b ∷ [])) x h = cc
agree t (a ∷ (b ∷ (c ∷ []))) x h = cc
agree t (a ∷ (b ∷ (c ∷ (d ∷ rest)))) x h =
    let n : ℕ = c * 256 + d in
    (
      refl,
      agree_decoded (shorter (a ∷ b ∷ c ∷ d ∷ rest) n) (ltb n 4) t a n
          (decode_payload t (take (n - 4) rest)) x h,
    )

same_value :
    (qs ps : List Payload)
    → ◌≡◌ {A = Result Error (List Payload)} (ok qs) (ok ps)
    → ◌≡◌ {A = Result SwuError (List Payload)} (ok qs) (ok ps)
same_value qs ps h = cc

rest_agrees :
    (p : Payload) (d : Result Error (List Payload)) (q : Result SwuError (List Payload))
    (ps : List Payload)
    → ((qs : List Payload) → d ≡ ok qs → q ≡ ok qs)
    → (d >>= λ qs. ok (p ∷ qs)) ≡ ok ps
    → (q >>= λ qs. ok (p ∷ qs)) ≡ ok ps
rest_agrees p (ok qs) q ps k h = rw (k qs refl) (same_value (p ∷ qs) ps h)
rest_agrees p (err e) q ps k h = cc
rest_agrees p panic q ps k h = cc
rest_agrees p stuck q ps k h = cc

round_agrees :
    (r : Result Error (Payload × ℕ × ℕ)) (buf : Bytes) (t : ℕ) (ps : List Payload)
    (d : ℕ → ℕ → Result Error (List Payload)) (q : ℕ → ℕ → Result SwuError (List Payload))
    → ((x : Payload × ℕ × ℕ) → r ≡ ok x → (shorter buf 4 ≡ false) × (next_payload t buf ≡ ok x))
    → ((next n : ℕ) (qs : List Payload) → d next n ≡ ok qs → q next n ≡ ok qs)
    → (do (p, next, n) ← r; qs ← d next n; ok (p ∷ qs)) ≡ ok ps
    → (elim (shorter buf 4) [
      | true ↦ ok []
      | false ↦ do (p, next, n) ← next_payload t buf; qs ← q next n; ok (p ∷ qs)
    ])
      ≡ ok ps
round_agrees (ok (p, next, n)) buf t ps d q k m h =
    let (long, same) = k (p, next, n) refl in
    rw (long, same) (rest_agrees p (d next n) (q next n) ps (m next n) h)
round_agrees (err e) buf t ps d q k m h = cc
round_agrees panic buf t ps d q k m h = cc
round_agrees stuck buf t ps d q k m h = cc

-- The payloads that the loop of DecodePacket reads without an error are those that the loop of
-- parsePayloads reads.
pub parse_loop-decode_chain :
    (fuel t : ℕ) (buf : Bytes) (ps : List Payload)
    → decode_chain fuel t buf ≡ ok ps
    → parse_loop fuel t buf ≡ ok ps
unfolding decode_chain parse_loop
parse_loop-decode_chain fuel t [] ps h = cc
parse_loop-decode_chain zero t (b ∷ bs) ps h = cc
parse_loop-decode_chain (suc fuel) t (b ∷ bs) ps h = elim (Bool-cases (t == 0)) [
  | inl e ↦ rw (e, parse_loop) (same_value [] ps (rw (e, decode_chain) at h))
  | inr e ↦
      rw (e, parse_loop)
        (round_agrees (Packet.next_payload t (b ∷ bs)) (b ∷ bs) t ps _ _ (agree t (b ∷ bs))
          (λ next n qs. parse_loop-decode_chain fuel next (drop n (b ∷ bs)) qs)
          (rw (e, decode_chain) at h))
]

-- parsePayloads, started at the type of the first payload, reads the chain of payloads that fit, as the
-- encoding loop writes it and leaves them.
pub parse_payloads-encode_chain :
    (ps : List Payload)
    → All FitsPayload ps
    → (b : Bytes) × (encode_chain ps ≡ ok b)
      × (parse_payloads b (first_type ps) ≡ ok (map settle ps))
unfolding parse_payloads
parse_payloads-encode_chain ps f =
    let (b, e, back) = decode_chain-encode_chain ps f in
    (
      b,
      e,
      parse_loop-decode_chain (length b) (first_type ps) b (map settle ps)
          (back (length b) (omega arith)),
    )
