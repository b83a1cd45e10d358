-- ===== src/Ikev2/Match/Selected.antt =====
-- proposal_match.go: the selected algorithms were offered, and are supported.
use swu_go.Prelude.{ℕ, ◌≡◌, ◌⊎◌, true, List, [], ◌∷◌}
use swu_go.Ikev2.Types.{
  transform_encr, transform_prf, transform_integ, transform_dh, proto_ike, proto_esp,
}
use swu_go.Ikev2.Sa.{Transform, Proposal}
use swu_go.Ikev2.Match.{ProposalMatcher, MatchedAlgorithms, contains_alg, is_aead}

-- A transform with this type and ID stands in the list.
abbrev pub Contains : ℕ → ℕ → List Transform → Type 0
Contains ty id [] = ⊥
Contains ty id (t ∷ ts) = ((t.transform_type ≡ ty) × (t.id ≡ id)) ⊎ Contains ty id ts

-- It was offered, and its ID is supported.
abbrev pub Offered : List ℕ → ℕ → ℕ → List Transform → Type 0
Offered list ty id ts = Contains ty id ts × (contains_alg list id ≡ true)

-- The algorithms `m` are of the proposal `p`.
pub record OfferedBy (pm : ProposalMatcher) (p : Proposal) (m : MatchedAlgorithms) : Type 0 where
  pub proposal_num : m.proposal_num ≡ p.proposal_num
  pub protocol_id : m.protocol_id ≡ p.protocol_id
  pub spi : m.spi ≡ p.spi
  pub encr : Offered pm.supported_encr transform_encr m.encr p.transforms
  pub integ :
      (is_aead m.encr ≡ true) ⊎ Offered pm.supported_integ transform_integ m.integ p.transforms
  pub ike_only :
      (p.protocol_id ≡ proto_esp)
      ⊎ ((p.protocol_id ≡ proto_ike)
          × Offered pm.supported_prf transform_prf m.prf p.transforms
          × Offered pm.supported_dh transform_dh m.dh p.transforms)
