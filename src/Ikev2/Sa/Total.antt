-- ===== src/Ikev2/Sa/Total.antt =====
-- payload_sa.go: DecodePayloadSA returns on every input.
use swu_go.Prelude.{
  ℕ, zero, suc, ◌+◌, ◌≤◌, ◌<◌, List, [], ◌∷◌, Bool, true, false, ◌||◌, ◌==◌, Result, ok, err, panic,
  stuck, ◌>>=◌, shorter, length, length-drop, take, drop, Returns, >>=-Returns, arith,
}
use swu_go.Prelude.Bytes.{Bytes, byte_at, u16_at}
use swu_go.Prelude.Parse.{
  guard-Returns, guard-Progress, Progress, parse_all, parse_n, if-Progress, sized-Progress,
  parse_all-Returns, parse_n-Returns,
}
use swu_go.Ikev2.Types.{
  Error, transform_too_short, proposal_too_short, proposal_no_transforms,
  proposal_no_transform_header, proposal_no_transform_body, proposal_no_spi, sa_no_proposal_header,
  sa_no_proposal_body,
}
use swu_go.Ikev2.Sa.{
  Proposal, decode_attribute, decode_transform, next_transform, decode_proposal, next_proposal,
  decode_proposals, decode_sa,
}

decode_attribute-Progress : (buf : Bytes) → Progress (decode_attribute buf)
unfolding decode_attribute
decode_attribute-Progress buf = ground arith

decode_transform-Returns : (buf : Bytes) → Returns (decode_transform buf)
unfolding decode_transform
decode_transform-Returns buf = guard-Returns 8 buf transform_too_short _ (
    >>=-Returns (parse_all decode_attribute (length (drop 8 buf)) (drop 8 buf)) _
      (parse_all-Returns decode_attribute decode_attribute-Progress (length (drop 8 buf))
        (drop 8 buf) (omega arith))
      (λ a. tt))

next_transform-Progress : (buf : Bytes) → Progress (next_transform buf)
unfolding next_transform
next_transform-Progress buf =
    let n = u16_at 2 buf in
    if-Progress (shorter buf 1) (err proposal_no_transforms) _ tt (
      guard-Progress 4 buf proposal_no_transform_header _ (
        guard-Progress n buf proposal_no_transform_body
          (decode_transform (take n buf) >>= λ t. ok (t, n))
          (sized-Progress decode_transform n buf decode_transform-Returns
            (λ t e. unfold decode_transform in cc e))))

decode_proposal-Returns : (buf : Bytes) → Returns (decode_proposal buf)
unfolding decode_proposal
decode_proposal-Returns buf = guard-Returns 8 buf proposal_too_short _ (
    guard-Returns (8 + byte_at 6 buf) buf proposal_no_spi _ (
      >>=-Returns (parse_n next_transform (byte_at 7 buf) (drop (byte_at 6 buf) (drop 8 buf))) _
        (parse_n-Returns next_transform next_transform-Progress (byte_at 7 buf) _) (λ a. tt)))

next_proposal-Progress : (buf : Bytes) → Progress (next_proposal buf)
unfolding next_proposal
next_proposal-Progress buf =
    let n = u16_at 2 buf in
    guard-Progress 4 buf sa_no_proposal_header _ (
      guard-Progress n buf sa_no_proposal_body (decode_proposal (take n buf) >>= λ p. ok (p, n)) (
        sized-Progress decode_proposal n buf decode_proposal-Returns
          (λ p e. unfold decode_proposal in cc e)))

after_proposal :
    (p : Proposal) (last : Bool) (more : Result Error (List Proposal))
    → Returns more
    → Returns (do ps ← elim last [ true ↦ ok [] | false ↦ more ]; ok (p ∷ ps))
after_proposal p true more h = tt
after_proposal p false more h = >>=-Returns more (λ ps. ok (p ∷ ps)) h (λ ps. tt)

-- One round, from the call for the rest.
round-Returns :
    (r : Result Error (Proposal × ℕ)) (b : ℕ) (rest : ℕ → Result Error (List Proposal))
    → Progress r
    → ((n : ℕ) → 0 < n → Returns (rest n))
    → Returns (do
      (p, prop_len) ← r
      ps ← elim (p.last || b == 0) [ true ↦ ok [] | false ↦ rest prop_len ]
      ok (p ∷ ps))
round-Returns (ok (p, n)) b rest q h = after_proposal p (p.last || b == 0) (rest n) (h n q)
round-Returns (err x) b rest q h = tt
round-Returns panic b rest q h = q
round-Returns stuck b rest q h = q

decode_proposals-Returns :
    (fuel : ℕ) (buf : Bytes) → length buf ≤ fuel → Returns (decode_proposals fuel buf)
unfolding decode_proposals
decode_proposals-Returns fuel [] h = tt
decode_proposals-Returns zero (b ∷ bs) h = absurd (omega arith)
decode_proposals-Returns (suc fuel) (b ∷ bs) h =
    round-Returns (next_proposal (b ∷ bs)) b (λ n. decode_proposals fuel (drop n (b ∷ bs)))
      (next_proposal-Progress (b ∷ bs))
      (λ n q.
        decode_proposals-Returns fuel (drop n (b ∷ bs)) (omega (arith, length-drop n (b ∷ bs))))

-- DecodePayloadSA returns on every input: no index is out of range, and its loops end.
pub decode_sa-Returns : (buf : Bytes) → Returns (decode_sa buf)
unfolding decode_sa
decode_sa-Returns buf = decode_proposals-Returns (length buf) buf (omega arith)
