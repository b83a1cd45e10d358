-- ===== src/Ikev2/Sa/RoundTrip.antt =====
-- payload_sa.go: what Encode writes, DecodePayloadSA reads back.
use swu_go.Prelude.{
  ℕ, zero, suc, ◌+◌, ◌-◌, ◌%◌, ◌^◌, ◌≤◌, ◌<◌, ◌≡◌, refl, ap, subst, ◌∙◌, Bool, true, false, List,
  [], ◌∷◌, ◌++◌, append-nil, ok, ◌>>=◌, ◌==◌, shorter, shorter-false, length, length-append,
  drop-length-append, take-length-append, All, arith,
}
use swu_go.Prelude.Bytes.{Bytes, byte_at, u16_at, u16-be16}
use swu_go.Prelude.Parse.{parse_n, concat_map, parse_n-concat_map}
use swu_go.Ikev2.Sa.{
  Transform, Proposal, emit_transform, emit_proposal, settle_proposal, settle_sa, encode_sa,
  next_transform, decode_proposal, next_proposal, decode_proposals, decode_sa, settle_transforms,
}
use swu_go.Ikev2.Sa.Transforms.{
  FitsTransform, All-map, next_transform_back, long_enough, length-emit_transform, last_byte_back,
}

pub record FitsProposal (p : Proposal) : Type 0 where
  pub spi : length p.spi < 256
  pub count : length p.transforms < 256
  pub transforms : All FitsTransform p.transforms
  pub size : 8 + length p.spi + length (concat_map emit_transform p.transforms) < 2 ^ 16

shorter_past_header :
    (a b c d e f g h : ℕ) (xs : Bytes) (n : ℕ)
    → n ≤ length xs
    → shorter (a ∷ b ∷ c ∷ d ∷ e ∷ f ∷ g ∷ h ∷ xs) (8 + n) ≡ false
shorter_past_header a b c d e f g h xs n k =
    shorter-false (a ∷ b ∷ c ∷ d ∷ e ∷ f ∷ g ∷ h ∷ xs) (8 + n) (omega arith)

decode_proposal-emit : (p : Proposal) → FitsProposal p → decode_proposal (emit_proposal p) ≡ ok p
unfolding decode_proposal emit_proposal
decode_proposal-emit p f =
    let body = concat_map emit_transform p.transforms in
    let e : length p.spi % 256 ≡ length p.spi = omega arith in
    let k : length p.transforms % 256 ≡ length p.transforms = omega arith in
    let fits : length p.spi ≤ length (p.spi ++ body) = omega (arith, length-append p.spi body) in
    let back : parse_n next_transform (length p.transforms) body ≡ ok p.transforms =
      subst (λ b. parse_n next_transform (length p.transforms) b ≡ ok p.transforms)
        (append-nil body)
        (parse_n-concat_map next_transform emit_transform p.transforms []
          (All-map next_transform_back p.transforms f.transforms)) in
    rw
      (
        e,
        k,
        shorter_past_header _ _ _ _ _ _ _ _ (p.spi ++ body) (length p.spi) fits,
        drop-length-append p.spi body,
        take-length-append p.spi body,
        back,
      )
      (λ i. ok (record {
        last = last_byte_back p.last 2 (omega arith) i;
        proposal_num = p.proposal_num;
        protocol_id = p.protocol_id;
        spi = p.spi;
        transforms = p.transforms;
      }))

length-emit_proposal :
    (p : Proposal)
    → length (emit_proposal p) ≡ 8 + length p.spi + length (concat_map emit_transform p.transforms)
unfolding emit_proposal
length-emit_proposal p = omega (arith, length-append p.spi (concat_map emit_transform p.transforms))

proposal_length_field :
    (p : Proposal) (rest : Bytes)
    → FitsProposal p
    → u16_at 2 (emit_proposal p ++ rest) ≡ length (emit_proposal p)
unfolding emit_proposal
proposal_length_field p rest f =
    let n = 8 + length p.spi + length (concat_map emit_transform p.transforms) in
    omega
      (arith, u16-be16 (n % 2 ^ 16), length-append p.spi (concat_map emit_transform p.transforms))

next_proposal_back :
    (p : Proposal) (rest : Bytes)
    → FitsProposal p
    → next_proposal (emit_proposal p ++ rest) ≡ ok (p, length (emit_proposal p))
unfolding next_proposal
next_proposal_back p rest f =
    let h : 4 ≤ length (emit_proposal p) = omega (arith, length-emit_proposal p) in
    rw (
      long_enough (emit_proposal p) rest 4 h h,
      proposal_length_field p rest f,
      long_enough (emit_proposal p) rest (length (emit_proposal p)) h (omega arith),
      take-length-append (emit_proposal p) rest,
      decode_proposal-emit p f,
    )

-- One round of the loop, on the last proposal and on another.
module _ (fuel : ℕ) (p : Proposal) where
  round_last :
      (xs : Bytes)
      → 0 < length xs
      → next_proposal xs ≡ ok (record p { last = true }, length xs)
      → decode_proposals (suc fuel) xs ≡ ok (record p { last = true } ∷ [])
  unfolding decode_proposals
  round_last [] h e = absurd (omega arith)
  round_last (b ∷ bs) h e = rw e

  round_more :
      (xs rest : Bytes)
      → 0 < length xs
      → (byte_at 0 xs == 0) ≡ false
      → next_proposal (xs ++ rest) ≡ ok (record p { last = false }, length xs)
      → decode_proposals (suc fuel) (xs ++ rest)
        ≡ (decode_proposals fuel rest >>= λ ps. ok (record p { last = false } ∷ ps))
  unfolding decode_proposals
  round_more [] rest h z e = absurd (omega arith)
  round_more (b ∷ bs) rest h z e = rw (e, z, drop-length-append bs rest)

-- The flags do not change the size of a transform, nor whether it fits.
length-settle_transforms :
    (ts : List Transform)
    → (length (settle_transforms ts) ≡ length ts)
      × (length (concat_map emit_transform (settle_transforms ts))
          ≡ length (concat_map emit_transform ts))
length-settle_transforms [] = (refl, refl)
length-settle_transforms (t ∷ []) = (
  refl,
  rw (append-nil (emit_transform t), append-nil (emit_transform (record t { last = true })))
      (omega (arith, length-emit_transform t, length-emit_transform (record t { last = true }))),
)
length-settle_transforms (t ∷ (u ∷ ts)) =
    let (n, m) = length-settle_transforms (u ∷ ts) in
    let t' = record t { last = false } in
    (
      ap suc n,
      omega (
        arith,
        m,
        length-emit_transform t,
        length-emit_transform t',
        length-append (emit_transform t) (concat_map emit_transform (u ∷ ts)),
        length-append (emit_transform t') (concat_map emit_transform (settle_transforms (u ∷ ts))),
      ),
    )

settle_transforms-Fits :
    (ts : List Transform) → All FitsTransform ts → All FitsTransform (settle_transforms ts)
settle_transforms-Fits [] h = tt
settle_transforms-Fits (t ∷ []) (f, h) =
    (record { id = f.id; attributes = f.attributes; size = f.size }, tt)
settle_transforms-Fits (t ∷ (u ∷ ts)) (f, h) = (
  record { id = f.id; attributes = f.attributes; size = f.size },
  settle_transforms-Fits (u ∷ ts) h,
)

settle_proposal-Fits :
    (p : Proposal) (b : Bool)
    → FitsProposal p
    → FitsProposal (settle_proposal (record p { last = b }))
unfolding settle_proposal
settle_proposal-Fits p b f = record {
  spi = f.spi;
  count = omega (arith, length-settle_transforms p.transforms);
  transforms = settle_transforms-Fits p.transforms f.transforms;
  size = omega (arith, length-settle_transforms p.transforms);
}

-- The same rounds, on a proposal that Encode wrote.
module _ (fuel : ℕ) (p : Proposal) (f : FitsProposal p) where
  settled_last :
      decode_proposals (suc fuel) (emit_proposal (settle_proposal (record p { last = true })))
      ≡ ok (settle_proposal (record p { last = true }) ∷ [])
  unfolding settle_proposal
  settled_last =
      let q = settle_proposal (record p { last = true }) in
      round_last fuel q (emit_proposal q) (omega (arith, length-emit_proposal q))
        (rw append-nil at (next_proposal_back q [] (settle_proposal-Fits p true f)))

  settled_more :
      (rest : Bytes)
      → decode_proposals
          (suc fuel)
          (emit_proposal (settle_proposal (record p { last = false })) ++ rest)
        ≡ (decode_proposals fuel rest >>= λ ps.
            ok (settle_proposal (record p { last = false }) ∷ ps))
  unfolding settle_proposal
  settled_more rest =
      let q = settle_proposal (record p { last = false }) in
      round_more fuel q (emit_proposal q) rest (omega (arith, length-emit_proposal q))
        (unfold emit_proposal in refl) (next_proposal_back q rest (settle_proposal-Fits p false f))

  emitted_nonempty :
      (b : Bool) (rest : Bytes)
      → length (emit_proposal (settle_proposal (record p { last = b })) ++ rest)
        ≡ 8 + length rest + (length (emit_proposal (settle_proposal (record p { last = b }))) - 8)
  emitted_nonempty b rest =
      let q = settle_proposal (record p { last = b }) in
      omega (arith, length-append (emit_proposal q) rest, length-emit_proposal q)

decode_proposals-settle_sa :
    (fuel : ℕ) (ps : List Proposal)
    → All FitsProposal ps
    → length (concat_map emit_proposal (settle_sa ps)) ≤ fuel
    → decode_proposals fuel (concat_map emit_proposal (settle_sa ps)) ≡ ok (settle_sa ps)
unfolding settle_sa
decode_proposals-settle_sa fuel [] f h = unfold decode_proposals in refl
decode_proposals-settle_sa zero (p ∷ []) (f, _) h =
    absurd (omega (arith, emitted_nonempty 0 p f true []))
decode_proposals-settle_sa (suc fuel) (p ∷ []) (f, _) h = rw append-nil (settled_last fuel p f)
decode_proposals-settle_sa zero (p ∷ (q ∷ ps)) (f, fs) h =
    absurd
      (omega (arith, emitted_nonempty 0 p f false (concat_map emit_proposal (settle_sa (q ∷ ps)))))
decode_proposals-settle_sa (suc fuel) (p ∷ (q ∷ ps)) (f, fs) h =
    let rest = concat_map emit_proposal (settle_sa (q ∷ ps)) in
    settled_more fuel p f rest
    ∙ ap (λ r. r >>= λ xs. ok (settle_proposal (record p { last = false }) ∷ xs))
        (decode_proposals-settle_sa fuel (q ∷ ps) fs
          (omega (arith, emitted_nonempty fuel p f false rest)))

-- DecodePayloadSA reads the bytes that EncryptedPayloadSA.Encode writes back as the proposals that
-- Encode leaves behind, with the Last flags of proposals and transforms set by position, provided
-- that the sizes, counts and identifiers fit their fields and each attribute has one form.
pub decode_sa-encode_sa :
    (ps : List Proposal) → All FitsProposal ps → decode_sa (encode_sa ps) ≡ ok (settle_sa ps)
unfolding decode_sa encode_sa
decode_sa-encode_sa ps f =
    decode_proposals-settle_sa (length (concat_map emit_proposal (settle_sa ps))) ps f (omega arith)
