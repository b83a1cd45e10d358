-- ===== src/Ikev2/Packet/Malformed.antt =====
-- packet.go: DecodePacket on any input, well formed or not.
use swu_go.Prelude.{
  ℕ, zero, suc, ◌+◌, ◌-◌, ◌*◌, ◌≤◌, ◌<◌, ◌≡◌, ◌≢◌, ◌↔◌, refl, ap, ◌∙◌, Bool, true, false,
  Bool-cases, List, [], ◌∷◌, inl, inr, Result, ok, err, panic, stuck, ◌>>=◌, ltb, ltb→lt, ◌==◌,
  ==_false, if◌then◌else◌, shorter, shorter-false, length, length-drop, take, drop, Returns, arith,
}
use swu_go.Prelude.Bytes.{Bytes, byte_at, u16_at, u32_at, u64_at}
use swu_go.Ikev2.Types.{Error, no_payload_body}
use swu_go.Ikev2.Header.{IkeHeader, decode_header, decode_payload_header}
use swu_go.Ikev2.Payload.{Payload, decode_payload}
use swu_go.Ikev2.Payload.RoundTrip.{decode_payload-Returns}
use swu_go.Ikev2.Packet.{next_payload, decode_chain, decode_packet, in_payload}

-- What a round tells of its input: a payload takes 4 bytes at least, and a panic comes of a complete
-- generic header with a length below 4.
abbrev Round : Bytes → Result Error (Payload × ℕ × ℕ) → Type 0
Round buf (ok (p, next, n)) = 4 ≤ n
Round buf (err e) = Unit {0}
Round buf panic = (4 ≤ length buf) × (u16_at 2 buf < 4)
Round buf stuck = ⊥

decoded-Round :
    (t next n : ℕ) (buf : Bytes) (r : Result Error Payload)
    → 4 ≤ n
    → Returns r
    → Round buf (in_payload t r >>= λ p. ok (p, next, n))
decoded-Round t next n buf (ok p) h q = h
decoded-Round t next n buf (err e) h q = tt
decoded-Round t next n buf panic h q = absurd q
decoded-Round t next n buf stuck h q = absurd q

err-Round :
    (b : Bool) (buf : Bytes) (e : Error) (r : Result Error (Payload × ℕ × ℕ))
    → Round buf r
    → Round buf (if b then err e else r)
err-Round true buf e r h = tt
err-Round false buf e r h = h

-- A complete generic header, with the length `n`.
next_payload-long :
    (t a b c d : ℕ) (rest : Bytes)
    → let buf : Bytes = a ∷ b ∷ c ∷ d ∷ rest in
      Round buf (next_payload t buf) × (c * 256 + d < 4 → next_payload t buf ≡ panic)
unfolding next_payload decode_payload_header
next_payload-long t a b c d rest =
    let n : ℕ = c * 256 + d in
    let buf : Bytes = a ∷ b ∷ c ∷ d ∷ rest in
    elim (Bool-cases (ltb n 4)) [
      | inl e ↦
          let small : n < 4 = ltb→lt n 4 e in
          rw (shorter-false buf n (omega arith), e) ((omega arith, small), λ _. refl)
      | inr e ↦ (
        rw e (
            err-Round (shorter buf n) buf no_payload_body _ (
              decoded-Round t a n buf (decode_payload t (take (n - 4) rest)) (ground arith)
                (decode_payload-Returns t (take (n - 4) rest)))),
        λ small. absurd (ground arith),
      )
    ]

next_payload-Round : (t : ℕ) (buf : Bytes) → Round buf (next_payload t buf)
unfolding next_payload
next_payload-Round t [] = tt
next_payload-Round t (a ∷ []) = tt
next_payload-Round t (a ∷ (b ∷ [])) = tt
next_payload-Round t (a ∷ (b ∷ (c ∷ []))) = tt
next_payload-Round t (a ∷ (b ∷ (c ∷ (d ∷ rest)))) = (next_payload-long t a b c d rest).0

of_panic :
    (buf : Bytes) (r : Result Error (Payload × ℕ × ℕ))
    → Round buf r
    → r ≡ panic
    → (4 ≤ length buf) × (u16_at 2 buf < 4)
of_panic buf (ok (p, next, n)) h e = cc
of_panic buf (err x) h e = cc
of_panic buf panic h e = h
of_panic buf stuck h e = absurd h

to_panic : (t : ℕ) (buf : Bytes) → 4 ≤ length buf → u16_at 2 buf < 4 → next_payload t buf ≡ panic
to_panic t [] h k = absurd (omega arith)
to_panic t (a ∷ []) h k = absurd (omega arith)
to_panic t (a ∷ (b ∷ [])) h k = absurd (omega arith)
to_panic t (a ∷ (b ∷ (c ∷ []))) h k = absurd (omega arith)
to_panic t (a ∷ (b ∷ (c ∷ (d ∷ rest)))) h k = (next_payload-long t a b c d rest).1 k

-- A round of DecodePacket's loop panics exactly when the generic header is complete and its payload
-- length is below 4, the length of the generic header itself.
pub next_payload_panics :
    (t : ℕ) (buf : Bytes) → (next_payload t buf ≡ panic) ↔ ((4 ≤ length buf) × (u16_at 2 buf < 4))
next_payload_panics t buf =
    (of_panic buf (next_payload t buf) (next_payload-Round t buf), λ h. to_panic t buf h.0 h.1)

chain_panics :
    (fuel t : ℕ) (xs : Bytes)
    → t ≢ 0
    → next_payload t xs ≡ panic
    → 0 < length xs
    → decode_chain (suc fuel) t xs ≡ panic
unfolding decode_chain
chain_panics fuel t [] z e h = absurd (omega arith)
chain_panics fuel t (b ∷ bs) z e h = rw (==_false t 0 z, decode_chain) (rw e)

header_of : Bytes → IkeHeader
header_of buf = record {
  spi_i = u64_at 0 buf;
  spi_r = u64_at 8 buf;
  next_payload = byte_at 16 buf;
  version = byte_at 17 buf;
  exchange_type = byte_at 18 buf;
  flags = byte_at 19 buf;
  message_id = u32_at 20 buf;
  length = u32_at 24 buf;
}

decode_header_long : (buf : Bytes) → 28 ≤ length buf → decode_header buf ≡ ok (header_of buf)
unfolding decode_header header_of
decode_header_long buf h = rw (shorter-false buf 28 h)

-- Any message with a first payload whose stated length is below 4 makes DecodePacket panic: neither
-- the SPIs nor the other fields of the header matter.
pub decode_packet_panics :
    (buf : Bytes)
    → 32 ≤ length buf
    → byte_at 16 buf ≢ 0
    → u16_at 2 (drop 28 buf) < 4
    → decode_packet buf ≡ panic
unfolding decode_packet header_of
decode_packet_panics buf h z k =
    let long : 4 ≤ length (drop 28 buf) = omega (arith, length-drop 28 buf) in
    let e : length (drop 28 buf) ≡ suc (length (drop 28 buf) - 1) = omega arith in
    ap
      (λ r. r >>= λ h.
        decode_chain (length (drop 28 buf)) h.next_payload (drop 28 buf) >>= λ ps. ok (h, ps))
      (decode_header_long buf (omega arith))
    ∙ ap (λ f. decode_chain f (byte_at 16 buf) (drop 28 buf) >>= λ ps. ok (header_of buf, ps)) e
    ∙ ap (λ r. r >>= λ ps. ok (header_of buf, ps))
        (chain_panics (length (drop 28 buf) - 1) (byte_at 16 buf) (drop 28 buf) z
          (to_panic (byte_at 16 buf) (drop 28 buf) long k) (omega arith))

-- The code ends, be it by a panic.
abbrev Ends : {A : Type 0} → Result Error A → Type 0
Ends (ok a) = Unit {0}
Ends (err e) = Unit {0}
Ends panic = Unit {0}
Ends stuck = ⊥

>>=-Ends :
    {A B : Type 0} (r : Result Error A) (f : A → Result Error B)
    → Ends r
    → ((a : A) → Ends (f a))
    → Ends (r >>= f)
>>=-Ends (ok a) f h k = k a
>>=-Ends (err e) f h k = tt
>>=-Ends panic f h k = tt
>>=-Ends stuck f h k = h

Round-Ends :
    (buf : Bytes) (r : Result Error (Payload × ℕ × ℕ)) (rest : ℕ → ℕ → Result Error (List Payload))
    → Round buf r
    → ((next n : ℕ) → 4 ≤ n → Ends (rest next n))
    → Ends (do (p, next, n) ← r; ps ← rest next n; ok (p ∷ ps))
Round-Ends buf (ok (p, next, n)) rest h k =
    >>=-Ends (rest next n) (λ ps. ok (p ∷ ps)) (k next n h) (λ ps. tt)
Round-Ends buf (err e) rest h k = tt
Round-Ends buf panic rest h k = tt
Round-Ends buf stuck rest h k = h

-- The loop over the payloads ends on every input.
decode_chain-Ends : (fuel t : ℕ) (buf : Bytes) → length buf ≤ fuel → Ends (decode_chain fuel t buf)
unfolding decode_chain
decode_chain-Ends fuel t [] h = tt
decode_chain-Ends zero t (b ∷ bs) h = absurd (omega arith)
decode_chain-Ends (suc fuel) t (b ∷ bs) h = elim (Bool-cases (t == 0)) [
  | inl e ↦ rw (e, decode_chain) tt
  | inr e ↦
      rw (e, decode_chain)
        (Round-Ends (b ∷ bs) (next_payload t (b ∷ bs))
          (λ next n. decode_chain fuel next (drop n (b ∷ bs))) (next_payload-Round t (b ∷ bs))
          (λ next n q.
            decode_chain-Ends fuel next (drop n (b ∷ bs)) (omega (arith, length-drop n (b ∷ bs)))))
]

Ends-ne-stuck : {A : Type 0} (r : Result Error A) → Ends r → r ≢ stuck
Ends-ne-stuck (ok a) h = λ e. cc
Ends-ne-stuck (err x) h = λ e. cc
Ends-ne-stuck panic h = λ e. cc
Ends-ne-stuck stuck h = absurd h

-- DecodePacket ends on every input: it gives a packet or an error, or it panics.
pub decode_packet-ne-stuck : (buf : Bytes) → decode_packet buf ≢ stuck
unfolding decode_packet
decode_packet-ne-stuck buf = Ends-ne-stuck _ (
    >>=-Ends (decode_header buf) _ (unfold decode_header in ground arith) (λ h.
      >>=-Ends (decode_chain (length (drop 28 buf)) h.next_payload (drop 28 buf)) _
        (decode_chain-Ends (length (drop 28 buf)) h.next_payload (drop 28 buf) (omega arith))
        (λ ps. tt)))
