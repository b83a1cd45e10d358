-- ===== src/Ikev2/Sa/Tests.antt =====
-- payload_sa.go: runs, and the theorems at concrete inputs.
use swu_go.Prelude.{◌≡◌, refl, true, false, inl, [], ◌∷◌, err, arith}
use swu_go.Ikev2.Types.{proposal_no_spi}
use swu_go.Ikev2.Sa.{
  Attribute, Transform, Proposal, emit_attribute, emit_transform, emit_proposal, settle_proposal,
  settle_sa, encode_sa, decode_sa, decode_proposals, next_proposal, decode_proposal, add_transform,
  new_proposal,
}
use swu_go.Ikev2.Sa.Transforms.{FitsTransform}
use swu_go.Ikev2.Sa.RoundTrip.{FitsProposal}

abbrev key_length : Attribute
key_length = record { attr_type = 14; value = []; val = 256 }

abbrev aes : Transform
aes = record { last = true; transform_type = 1; id = 12; attributes = key_length ∷ [] }

abbrev sha : Transform
sha = record { last = true; transform_type = 3; id = 12; attributes = [] }

abbrev pub a_proposal : Proposal
a_proposal = record {
  last = false;
  proposal_num = 1;
  protocol_id = 3;
  spi = 1 ∷ 2 ∷ 3 ∷ 4 ∷ [];
  transforms = aes ∷ sha ∷ [];
}

aes-Fits : FitsTransform aes
unfolding emit_attribute
aes-Fits = record {
  id = omega arith;
  attributes = (
    record { attr_type = omega arith; val = omega arith; value = omega arith; one_form = inl refl },
    tt,
  );
  size = omega arith;
}

sha-Fits : FitsTransform sha
sha-Fits = record { id = omega arith; attributes = tt; size = omega arith }

pub a_proposal-Fits : FitsProposal a_proposal
unfolding emit_attribute emit_transform
a_proposal-Fits = record {
  spi = omega arith;
  count = omega arith;
  transforms = (aes-Fits, (sha-Fits, tt));
  size = omega arith;
}

-- The builder, and the Last flags by position.
built :
    encode_sa
      (add_transform (add_transform (new_proposal 1 3 (1 ∷ 2 ∷ 3 ∷ 4 ∷ [])) 1 12 256) 3 12 0 ∷ [])
    ≡ 0 ∷ 0 ∷ 0 ∷ 32 ∷ 1 ∷ 3 ∷ 4 ∷ 2 ∷ 1 ∷ 2 ∷ 3 ∷ 4 ∷ 3 ∷ 0 ∷ 0 ∷ 12 ∷ 1 ∷ 0 ∷ 0 ∷ 12 ∷ 128 ∷ 14
      ∷ 1 ∷ 0 ∷ 0 ∷ 0 ∷ 0 ∷ 8 ∷ 3 ∷ 0 ∷ 0 ∷ 12 ∷ []
unfolding encode_sa settle_sa settle_proposal emit_proposal emit_transform emit_attribute
    add_transform new_proposal
built = refl

-- An SPI that is not there.
no_spi : decode_sa (0 ∷ 0 ∷ 0 ∷ 8 ∷ 1 ∷ 1 ∷ 4 ∷ 0 ∷ []) ≡ err proposal_no_spi
unfolding decode_sa decode_proposals next_proposal decode_proposal
no_spi = refl
