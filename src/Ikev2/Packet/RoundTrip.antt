-- ===== src/Ikev2/Packet/RoundTrip.antt =====
-- packet.go: DecodePacket reads back what Encode wrote.
use swu_go.Prelude.{
  ℕ, zero, suc, ◌+◌, ◌-◌, ◌%◌, ◌^◌, ◌≤◌, ◌<◌, ◌≡◌, ◌≢◌, refl, ap, ◌∙◌, false, List, [], ◌∷◌, ◌++◌,
  map, ok, ◌>>=◌, ltb, ltb-false, ==_false, shorter, shorter-false, length, length-append, take,
  drop, take-append_eq, drop-length-append, All, arith,
}
use swu_go.Prelude.Bytes.{Bytes}
use swu_go.Ikev2.Header.{
  IkeHeader, FitsHeader, PayloadHeader, encode_header, encode_payload_header, decode_payload_header,
  generic_header, decode_payload_header-encode, decode_header-encode_header,
}
use swu_go.Ikev2.Payload.{Payload, payload_type, encode_payload, decode_payload}
use swu_go.Ikev2.Payload.RoundTrip.{FitsBody, settle, decode_payload-encode_payload}
use swu_go.Ikev2.Packet.{
  first_type, encode_chain, encode_packet, next_payload, decode_chain, decode_packet,
}

-- A payload whose fields fit, and which is short enough for the length field of its header.
pub record FitsPayload (p : Payload) : Type 0 where
  pub body : FitsBody p
  pub size : (b : Bytes) → encode_payload p ≡ ok b → 4 + length b < 2 ^ 16
  pub not_end : payload_type p ≢ 0

-- A round that passes its tests.
next_payload_passes :
    (t : ℕ) (buf : Bytes) (h : PayloadHeader) (p : Payload)
    → shorter buf 4 ≡ false
    → decode_payload_header (take 4 buf) ≡ ok h
    → shorter buf h.payload_length ≡ false
    → ltb h.payload_length 4 ≡ false
    → decode_payload t (take (h.payload_length - 4) (drop 4 buf)) ≡ ok p
    → next_payload t buf ≡ ok (p, h.next_payload, h.payload_length)
unfolding next_payload
next_payload_passes t buf h p h1 h2 h3 h4 h5 = rw (h1, h2, h3, h4, h5)

-- The front of a chain: a generic header and the body that it measures.
abbrev unit_bytes : ℕ → Bytes → Bytes → Bytes
unit_bytes next body rest =
    encode_payload_header (generic_header next false (4 + length body)) ++ (body ++ rest)

length-unit_bytes :
    (next : ℕ) (body rest : Bytes)
    → length (unit_bytes next body rest) ≡ 4 + length body + length rest
unfolding encode_payload_header
length-unit_bytes next body rest = omega (arith, length-append body rest)

next_payload-unit :
    (t next : ℕ) (body rest : Bytes) (p : Payload)
    → 4 + length body < 2 ^ 16
    → decode_payload t body ≡ ok p
    → next_payload t (unit_bytes next body rest) ≡ ok (p, next, 4 + length body)
unfolding encode_payload_header
next_payload-unit t next body rest p size e =
    next_payload_passes t (unit_bytes next body rest) (generic_header next false (4 + length body))
      p refl (decode_payload_header-encode next false (4 + length body) [] size)
      (shorter-false (unit_bytes next body rest) (4 + length body)
        (omega (arith, length-unit_bytes next body rest)))
      (ltb-false (4 + length body) 4 (omega arith))
      (ap (decode_payload t) (take-append_eq (4 + length body - 4) body rest (omega arith)) ∙ e)

drop-unit :
    (next : ℕ) (body rest : Bytes) → drop (4 + length body) (unit_bytes next body rest) ≡ rest
unfolding encode_payload_header
drop-unit next body rest = rw four (drop-length-append body rest)
  where
    four : 4 + length body ≡ suc (suc (suc (suc (length body))))
    four = omega arith

decode_chain_round :
    (fuel t next n : ℕ) (xs : Bytes) (p : Payload)
    → 0 < length xs
    → t ≢ 0
    → next_payload t xs ≡ ok (p, next, n)
    → decode_chain (suc fuel) t xs ≡ (decode_chain fuel next (drop n xs) >>= λ ps. ok (p ∷ ps))
unfolding decode_chain
decode_chain_round fuel t next n [] p h z e = absurd (omega arith)
decode_chain_round fuel t next n (b ∷ bs) p h z e = rw (==_false t 0 z, decode_chain) (rw e)

encode_chain_round :
    (p : Payload) (ps : List Payload) (body rest : Bytes)
    → encode_payload p ≡ ok body
    → 4 + length body < 2 ^ 16
    → encode_chain ps ≡ ok rest
    → encode_chain (p ∷ ps) ≡ ok (unit_bytes (first_type ps) body rest)
unfolding encode_chain
encode_chain_round p ps body rest e size r =
    let k : (4 + length body) % 2 ^ 16 ≡ 4 + length body = omega arith in rw (e, r, k)

-- A chain of payloads that fit is encoded without error, and is read back, with the flags that
-- Encode sets, by the decoding loop started at the type of its first payload.
pub decode_chain-encode_chain :
    (ps : List Payload)
    → All FitsPayload ps
    → (b : Bytes) × (encode_chain ps ≡ ok b)
      × ((fuel : ℕ) → length b ≤ fuel → decode_chain fuel (first_type ps) b ≡ ok (map settle ps))
decode_chain-encode_chain [] f =
    ([], unfold encode_chain in refl, λ fuel h. unfold decode_chain in refl)
decode_chain-encode_chain (p ∷ ps) (f, fs) =
    let (body, e, d) = decode_payload-encode_payload p f.body in
    let (rest, r, back) = decode_chain-encode_chain ps fs in
    let size : 4 + length body < 2 ^ 16 = f.size body e in
    (
      unit_bytes (first_type ps) body rest,
      encode_chain_round p ps body rest e size r,
      chain_back p ps body rest f.not_end size d back,
    )
  where
    chain_back :
        (p : Payload) (ps : List Payload) (body rest : Bytes)
        → payload_type p ≢ 0
        → 4 + length body < 2 ^ 16
        → decode_payload (payload_type p) body ≡ ok (settle p)
        → ((fuel : ℕ)
            → length rest ≤ fuel
            → decode_chain fuel (first_type ps) rest ≡ ok (map settle ps))
        → (fuel : ℕ) → length (unit_bytes (first_type ps) body rest) ≤ fuel
        → decode_chain fuel (first_type (p ∷ ps)) (unit_bytes (first_type ps) body rest)
          ≡ ok (map settle (p ∷ ps))
    chain_back p ps body rest z size d back zero h =
        absurd (omega (arith, length-unit_bytes (first_type ps) body rest))
    chain_back p ps body rest z size d back (suc fuel) h =
        decode_chain_round fuel (payload_type p) (first_type ps) (4 + length body)
          (unit_bytes (first_type ps) body rest) (settle p)
          (omega (arith, length-unit_bytes (first_type ps) body rest)) z
          (next_payload-unit (payload_type p) (first_type ps) body rest (settle p) size d)
        ∙ ap (λ xs. decode_chain fuel (first_type ps) xs >>= λ qs. ok (settle p ∷ qs))
            (drop-unit (first_type ps) body rest)
        ∙ ap (λ r. r >>= λ qs. ok (settle p ∷ qs))
            (back fuel (omega (arith, length-unit_bytes (first_type ps) body rest)))

length-encode_header :
    (h : IkeHeader) (rest : Bytes) → length (encode_header h ++ rest) ≡ 28 + length rest
unfolding encode_header
length-encode_header h rest = omega arith

drop-encode_header : (h : IkeHeader) (rest : Bytes) → drop 28 (encode_header h ++ rest) ≡ rest
unfolding encode_header
drop-encode_header h rest = refl

-- A message whose header and payloads fit their fields is encoded without error. The header that
-- Encode leaves names the first payload and the length of the bytes, modulo 2^32, and DecodePacket
-- reads the bytes back as that header and the payloads as Encode leaves them.
pub decode_packet-encode_packet :
    (h : IkeHeader) (ps : List Payload)
    → FitsHeader h
    → All FitsPayload ps
    → (b : Bytes) × (let h' = record h {
      next_payload = first_type ps;
      length = length b % 2 ^ 32;
    } in
        (encode_packet h ps ≡ ok (h', b)) × (decode_packet b ≡ ok (h', map settle ps)))
unfolding encode_packet decode_packet
decode_packet-encode_packet h ps fh fs =
    let (chain, e, back) = decode_chain-encode_chain ps fs in
    let h' : IkeHeader = record h {
      next_payload = first_type ps;
      length = (28 + length chain) % 2 ^ 32;
    } in
    let fits : FitsHeader h' = record {
      spi_i = fh.spi_i;
      spi_r = fh.spi_r;
      message_id = fh.message_id;
      length = omega arith;
    } in
    (
      encode_header h' ++ chain,
      (
        rw (e, length-encode_header h' chain),
        rw (
          length-encode_header h' chain,
          decode_header-encode_header h' chain fits,
          drop-encode_header h' chain,
          back (length chain) (omega arith),
        ),
      ),
    )
