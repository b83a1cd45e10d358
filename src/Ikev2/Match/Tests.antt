-- ===== src/Ikev2/Match/Tests.antt =====
-- proposal_match.go: the theorems at concrete inputs.
use swu_go.Prelude.{ℕ, true, false, List, [], ◌∷◌}
use swu_go.Ikev2.Sa.{Attribute, Transform, Proposal}
use swu_go.Ikev2.Match.{MatchedAlgorithms}

abbrev offer : ℕ → ℕ → List Attribute → Transform
offer ty id attrs = record { last = false; transform_type = ty; id = id; attributes = attrs }

-- AES-CBC with 256 bits and, behind it, 3DES without a key length.
abbrev two_ciphers : Proposal
two_ciphers = record {
  last = true;
  proposal_num = 1;
  protocol_id = 1;
  spi = [];
  transforms =
      offer 1 12 (record { attr_type = 14; value = []; val = 256 } ∷ [])
      ∷ offer 1 3 []
      ∷ offer 2 2 []
      ∷ offer 3 2 []
      ∷ offer 4 14 []
      ∷ [];
}

abbrev no_ciphers : Proposal
no_ciphers = record {
  last = false;
  proposal_num = 2;
  protocol_id = 1;
  spi = [];
  transforms = offer 1 1 [] ∷ [];
}

abbrev chosen : MatchedAlgorithms
chosen = record {
  proposal_num = 1;
  protocol_id = 1;
  spi = [];
  encr = 3;
  encr_key_len = 256;
  integ = 2;
  prf = 2;
  dh = 14;
}
