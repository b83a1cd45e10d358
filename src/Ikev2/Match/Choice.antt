-- ===== src/Ikev2/Match/Choice.antt =====
-- proposal_match.go: what is chosen.
use swu_go.Prelude.{
  ℕ, Bool, true, false, ◌&&◌, ◌||◌, List, [], ◌∷◌, Option, none, some, ◌==◌, if◌then◌else◌,
}
use swu_go.Ikev2.Types.{
  transform_encr, transform_prf, transform_integ, transform_dh, proto_ike, proto_esp,
}
use swu_go.Ikev2.Sa.{Transform, Proposal}
use swu_go.Ikev2.Match.{
  ProposalMatcher, MatchedAlgorithms, Scan, contains_alg, is_aead, key_length_of, first_scan,
}

-- Independently of the code: the last transform of a type with a supported ID, if there is one.
abbrev pub usable : List ℕ → ℕ → Transform → Bool
usable list ty t = (t.transform_type == ty) && contains_alg list t.id

abbrev pub last_usable : List ℕ → ℕ → Option ℕ → List Transform → Option ℕ
last_usable list ty best [] = best
last_usable list ty best (t ∷ ts) =
    last_usable list ty (if usable list ty t then some t.id else best) ts

-- The last key length that stands in any usable cipher, the chosen one or one before it.
abbrev pub last_key_length : List ℕ → ℕ → List Transform → ℕ
last_key_length list n [] = n
last_key_length list n (t ∷ ts) =
    last_key_length list (if usable list transform_encr t then key_length_of t.attributes n else n)
      ts

abbrev pub or_zero : Option ℕ → ℕ
or_zero none = 0
or_zero (some n) = n

abbrev pub is_some : Option ℕ → Bool
is_some none = false
is_some (some n) = true

-- The locals that go with what was found so far.
scan_of : Proposal → ℕ → Option ℕ → Option ℕ → Option ℕ → Option ℕ → Scan
scan_of p k e i f d = record {
  result = record (first_scan p).result {
    encr = or_zero e;
    encr_key_len = k;
    integ = or_zero i;
    prf = or_zero f;
    dh = or_zero d;
  };
  encr_found = is_some e;
  integ_found = is_some i;
  prf_found = is_some f;
  dh_found = is_some d;
}

-- What an acceptable proposal must have: a usable cipher, an integrity algorithm unless the last usable
-- cipher is an AEAD, and for IKE a usable PRF and Diffie-Hellman group too.
abbrev pub acceptable : ProposalMatcher → Proposal → Bool
acceptable pm p =
    let e = last_usable pm.supported_encr transform_encr none p.transforms in
    let i = last_usable pm.supported_integ transform_integ none p.transforms in
    let f = last_usable pm.supported_prf transform_prf none p.transforms in
    let d = last_usable pm.supported_dh transform_dh none p.transforms in
    ((p.protocol_id == proto_ike) && (is_some f && is_some d) || (p.protocol_id == proto_esp))
    && (is_some e && (is_aead (or_zero e) || is_some i))

-- The algorithms of a proposal, acceptable or not.
abbrev pub algorithms : ProposalMatcher → Proposal → MatchedAlgorithms
algorithms pm p = record {
  proposal_num = p.proposal_num;
  protocol_id = p.protocol_id;
  spi = p.spi;
  encr = or_zero (last_usable pm.supported_encr transform_encr none p.transforms);
  encr_key_len = last_key_length pm.supported_encr 0 p.transforms;
  integ = or_zero (last_usable pm.supported_integ transform_integ none p.transforms);
  prf = or_zero (last_usable pm.supported_prf transform_prf none p.transforms);
  dh = or_zero (last_usable pm.supported_dh transform_dh none p.transforms);
}
