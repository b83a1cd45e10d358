-- ===== src/Ikev2/Ts/RoundTrip.antt =====
-- payload_ts.go: what Encode writes, DecodePayloadTS reads back.
use swu_go.Prelude.{
  ℕ, ◌+◌, ◌-◌, ◌%◌, ◌^◌, ◌<◌, ◌≡◌, refl, false, ◌∙◌, ap, ◌⊎◌, inl, inr, List, [], ◌∷◌, ◌++◌,
  append_assoc, append-nil, Result, ok, ◌>>=◌, ltb, ◌==◌, if◌then◌else◌, shorter, shorter-false,
  length, length-append, take, drop, replicate, take-append_eq, drop-append_eq, take_all, All,
  Returns, err, panic, stuck, Bool-cases, arith,
}
use swu_go.Prelude.Bytes.{Bytes, byte_at, be16, u16_at, u16-be16}
use swu_go.Prelude.Parse.{
  guard-Returns, guard-Progress, concat_map, ReadsBack, parse_n-concat_map, Progress,
  parse_n-Returns,
}
use swu_go.Ikev2.Types.{Error, ts_too_short, ts_no_selector_header, ts_no_selector_body}
use swu_go.Ikev2.Ts.{
  TrafficSelector, emit_selector, encode_selector, encode_selectors, encode_ts, selector_addresses,
  next_selector, decode_ts, copy_into,
}

-- The type says how long the two addresses are.
abbrev FitsAddresses : TrafficSelector → ℕ → Type 0
FitsAddresses ts n = (length ts.start_addr ≡ n) × (length ts.end_addr ≡ n)

pub record FitsSelector (ts : TrafficSelector) : Type 0 where
  pub start_port : ts.start_port < 2 ^ 16
  pub end_port : ts.end_port < 2 ^ 16
  pub addresses : (ts.ts_type ≡ 7) × FitsAddresses ts 4 ⊎ (ts.ts_type ≡ 8) × FitsAddresses ts 16

copy_into_all : (n : ℕ) (xs : Bytes) → length xs ≡ n → copy_into n xs ≡ xs
copy_into_all n xs h = take-append_eq n xs (replicate n 0) (omega arith)

-- The addresses stand behind one another.
module _ (n : ℕ) (s e rest : Bytes) (hs : length s ≡ n) (he : length e ≡ n) where
  take_both : (k : ℕ) → k ≡ n + n → take k (s ++ (e ++ rest)) ≡ s ++ e
  take_both k h =
      rw (← append_assoc s e rest)
        (take-append_eq k (s ++ e) rest (omega (arith, length-append s e)))

  take_first : take n (s ++ e) ≡ s
  take_first = take-append_eq n s e (omega arith)

  take_second : take n (drop n (s ++ e)) ≡ e
  take_second = rw (drop-append_eq n s e (omega arith)) (take_all n e (omega arith))

-- The addresses of each family, from a slice of the right length.
ipv4_addresses :
    (xs a b : Bytes)
    → length xs ≡ 8
    → take 4 xs ≡ a
    → take 4 (drop 4 xs) ≡ b
    → selector_addresses 7 16 xs ≡ ok (a, b)
unfolding selector_addresses
ipv4_addresses xs a b h p q = rw (h, shorter-false xs 8 (omega arith)) (λ i. ok (p i, q i))

ipv6_addresses :
    (xs a b : Bytes)
    → length xs ≡ 32
    → take 16 xs ≡ a
    → take 16 (drop 16 xs) ≡ b
    → selector_addresses 8 40 xs ≡ ok (a, b)
unfolding selector_addresses
ipv6_addresses xs a b h p q = rw (h, shorter-false xs 32 (omega arith)) (λ i. ok (p i, q i))

-- A round that passes its tests.
next_selector_passes :
    (buf s e : Bytes) (k : ℕ)
    → shorter buf 8 ≡ false
    → u16_at 2 buf ≡ k
    → ltb k 8 ≡ false
    → shorter buf k ≡ false
    → selector_addresses (byte_at 0 buf) k (take (k - 8) (drop 8 buf)) ≡ ok (s, e)
    → next_selector buf
      ≡ ok (
        record {
          ts_type = byte_at 0 buf;
          ip_protocol = byte_at 1 buf;
          start_port = u16_at 4 buf;
          end_port = u16_at 6 buf;
          start_addr = s;
          end_addr = e;
        },
        k,
      )
unfolding next_selector
next_selector_passes buf s e k h1 h2 h3 h4 h5 = rw (h1, h2, h3, h4, h5)

selector : ℕ → ℕ → ℕ → ℕ → Bytes → Bytes → TrafficSelector
selector t p a b s e = record {
  ts_type = t;
  ip_protocol = p;
  start_port = a;
  end_port = b;
  start_addr = s;
  end_addr = e;
}

module _ (p a b : ℕ) (s e rest : Bytes) (ha : a < 2 ^ 16) (hb : b < 2 ^ 16) where
  -- What is written, with the addresses in full, and the rest behind it.
  wire : ℕ → ℕ → Bytes
  wire t n = t ∷ p ∷ (be16 n ++ (be16 a ++ (be16 b ++ (s ++ (e ++ rest)))))

  emit_selector-wire :
      (t n : ℕ)
      → length s ≡ n
      → length e ≡ n
      → emit_selector n (selector t p a b s e) ++ rest ≡ wire t (8 + n + n)
  unfolding emit_selector wire selector
  emit_selector-wire t n hs he =
      rw (copy_into_all n s hs, copy_into_all n e he, append_assoc s e rest)

  read_wire :
      (t n : ℕ)
      → next_selector (wire t n)
        ≡ ok (
          record {
            ts_type = t;
            ip_protocol = p;
            start_port = u16_at 0 (be16 a);
            end_port = u16_at 0 (be16 b);
            start_addr = s;
            end_addr = e;
          },
          n,
        )
      → next_selector (wire t n) ≡ ok (selector t p a b s e, n)
  unfolding selector
  read_wire t n h = rw (u16-be16 a ha, u16-be16 b hb) at h

  ipv4_back :
      length s ≡ 4
      → length e ≡ 4
      → next_selector (emit_selector 4 (selector 7 p a b s e) ++ rest)
        ≡ ok (selector 7 p a b s e, 16)
  ipv4_back hs he =
      ap next_selector (emit_selector-wire 7 4 hs he)
      ∙ read_wire 7 16 (
          unfold wire in
          next_selector_passes (wire 7 16) s e 16 refl refl refl
            (shorter-false (wire 7 16) 16
              (omega (arith, length-append s (e ++ rest), length-append e rest)))
            (ap (selector_addresses 7 16) (take_both 4 s e rest hs he 8 refl)
              ∙ ipv4_addresses (s ++ e) s e (omega (arith, length-append s e))
                  (take_first 4 s e rest hs he) (take_second 4 s e rest hs he)))

  ipv6_back :
      length s ≡ 16
      → length e ≡ 16
      → next_selector (emit_selector 16 (selector 8 p a b s e) ++ rest)
        ≡ ok (selector 8 p a b s e, 40)
  ipv6_back hs he =
      ap next_selector (emit_selector-wire 8 16 hs he)
      ∙ read_wire 8 40 (
          unfold wire in
          next_selector_passes (wire 8 40) s e 40 refl refl refl
            (shorter-false (wire 8 40) 40
              (omega (arith, length-append s (e ++ rest), length-append e rest)))
            (ap (selector_addresses 8 40) (take_both 16 s e rest hs he 32 refl)
              ∙ ipv6_addresses (s ++ e) s e (omega (arith, length-append s e))
                  (take_first 16 s e rest hs he) (take_second 16 s e rest hs he)))

-- The bytes of a selector of either family.
emit : TrafficSelector → Bytes
emit ts = if ts.ts_type == 8 then emit_selector 16 ts else emit_selector 4 ts

length-emit_selector :
    (n : ℕ) (ts : TrafficSelector)
    → length ts.start_addr ≡ n
    → length ts.end_addr ≡ n
    → length (emit_selector n ts) ≡ 8 + n + n
unfolding emit_selector
length-emit_selector n ts hs he =
    rw (copy_into_all n ts.start_addr hs, copy_into_all n ts.end_addr he)
      (omega (arith, length-append ts.start_addr ts.end_addr))

selector_back :
    (t p a b : ℕ) (s e : Bytes)
    → FitsSelector (selector t p a b s e)
    → (encode_selector (selector t p a b s e) ≡ ok (emit (selector t p a b s e)))
      × ReadsBack next_selector emit (selector t p a b s e)
unfolding selector emit encode_selector
selector_back t p a b s e f = elim f.addresses [
  | inl (h, (hs, he)) ↦ rw h (
    refl,
    (
      rw (length-emit_selector 4 (selector 7 p a b s e) hs he) (omega arith),
      λ rest.
          rw (length-emit_selector 4 (selector 7 p a b s e) hs he)
            (ipv4_back p a b s e rest f.start_port f.end_port hs he),
    ),
  )
  | inr (h, (hs, he)) ↦ rw h (
    refl,
    (
      rw (length-emit_selector 16 (selector 8 p a b s e) hs he) (omega arith),
      λ rest.
          rw (length-emit_selector 16 (selector 8 p a b s e) hs he)
            (ipv6_back p a b s e rest f.start_port f.end_port hs he),
    ),
  )
]

encode_selectors-emit :
    (xs : List TrafficSelector)
    → All FitsSelector xs
    → (encode_selectors xs ≡ ok (concat_map emit xs)) × All (ReadsBack next_selector emit) xs
unfolding encode_selectors selector
encode_selectors-emit [] f = (refl, tt)
encode_selectors-emit (x ∷ xs) (f, fs) =
    let (e, back) =
      selector_back x.ts_type x.ip_protocol x.start_port x.end_port x.start_addr x.end_addr f in
    let (es, backs) = encode_selectors-emit xs fs in (rw (e, es), (back, backs))

-- Encode does not panic on selectors of the two known types with addresses of the right length, and
-- DecodePayloadTS reads its output back as the same selectors, if there are fewer than 256.
pub decode_ts-encode_ts :
    (xs : List TrafficSelector)
    → length xs < 256
    → All FitsSelector xs
    → (b : Bytes) × (encode_ts xs ≡ ok b) × (decode_ts b ≡ ok xs)
unfolding encode_ts decode_ts
decode_ts-encode_ts xs h f =
    let (e, back) = encode_selectors-emit xs f in
    let c : length xs % 256 ≡ length xs = omega arith in
    (
      length xs ∷ 0 ∷ 0 ∷ 0 ∷ concat_map emit xs,
      rw (e, c),
      rw append-nil at (parse_n-concat_map next_selector emit xs [] back),
    )

selector_addresses-Returns : (t n : ℕ) (rest : Bytes) → Returns (selector_addresses t n rest)
unfolding selector_addresses
selector_addresses-Returns t n rest = ground arith

selector-Progress :
    (m : Result Error (Bytes × Bytes)) (n : ℕ) (make : Bytes → Bytes → TrafficSelector)
    → Returns m
    → 0 < n
    → Progress (do (s, e) ← m; ok (make s e, n))
selector-Progress (ok (s, e)) n make r h = h
selector-Progress (err x) n make r h = tt
selector-Progress panic n make r h = r
selector-Progress stuck n make r h = r

next_selector-Progress : (buf : Bytes) → Progress (next_selector buf)
unfolding next_selector selector
next_selector-Progress buf =
    let n = u16_at 2 buf in
    guard-Progress 8 buf ts_no_selector_header _ (elim (Bool-cases (ltb n 8)) [
      | inl e ↦ rw (e, next_selector) tt
      | inr e ↦
          rw (e, next_selector)
            (guard-Progress n buf ts_no_selector_body _ (
              selector-Progress (selector_addresses (byte_at 0 buf) n (take (n - 8) (drop 8 buf))) n
                (λ s e. selector (byte_at 0 buf) (byte_at 1 buf) (u16_at 4 buf) (u16_at 6 buf) s e)
                (selector_addresses-Returns (byte_at 0 buf) n (take (n - 8) (drop 8 buf)))
                (ground arith)))
    ])

-- DecodePayloadTS returns on every input: no index is out of range.
pub decode_ts-Returns : (buf : Bytes) → Returns (decode_ts buf)
unfolding decode_ts
decode_ts-Returns buf =
    guard-Returns 4 buf ts_too_short _
      (parse_n-Returns next_selector next_selector-Progress (byte_at 0 buf) (drop 4 buf))
