-- ===== src/Ikev2/Match.antt =====
-- pkg/ikev2/proposal_match.go: the choice among the proposals of an SA payload.
pub mod Choice
pub mod Selected
mod Tests
use swu_go.Prelude.{
  ℕ, ◌%◌, ◌^◌, Bool, true, false, ◌&&◌, ◌||◌, List, [], ◌∷◌, ◌++◌, Option, none, some, ltb, ◌==◌,
  if◌then◌else◌,
}
use swu_go.Prelude.Bytes.{Bytes}
use swu_go.Ikev2.Types.{
  proto_ike, proto_esp, transform_encr, transform_prf, transform_integ, transform_dh, encr_3des,
  encr_aes_cbc, encr_aes_ctr, encr_aes_ccm_8, encr_aes_ccm_12, encr_aes_ccm_16, encr_aes_gcm_8,
  encr_aes_gcm_12, encr_aes_gcm_16, attribute_key_length,
}
use swu_go.Ikev2.Sa.{Attribute, Transform, Proposal}

pub record ProposalMatcher : Type 0 where
  pub supported_encr : List ℕ
  pub supported_integ : List ℕ
  pub supported_prf : List ℕ
  pub supported_dh : List ℕ

-- The IDs behind the names of SupportedInteg, SupportedPRF and SupportedDH are written out.
unfoldable pub default_proposal_matcher : ProposalMatcher
default_proposal_matcher = record {
  supported_encr =
      encr_aes_gcm_16 ∷ encr_aes_gcm_12 ∷ encr_aes_gcm_8 ∷ encr_aes_ccm_16 ∷ encr_aes_cbc
      ∷ encr_aes_ctr ∷ encr_3des ∷ [];
  supported_integ = 0 ∷ 14 ∷ 13 ∷ 12 ∷ 5 ∷ 2 ∷ [];
  supported_prf = 7 ∷ 6 ∷ 5 ∷ 4 ∷ 2 ∷ [];
  supported_dh = 16 ∷ 15 ∷ 14 ∷ 5 ∷ 2 ∷ [];
}

pub record MatchedAlgorithms : Type 0 where
  pub proposal_num : ℕ
  pub protocol_id : ℕ
  pub spi : Bytes
  pub encr : ℕ
  pub encr_key_len : ℕ
  pub integ : ℕ
  pub prf : ℕ
  pub dh : ℕ

abbrev pub contains_alg : List ℕ → ℕ → Bool
contains_alg [] alg = false
contains_alg (a ∷ list) alg = if a == alg then true else contains_alg list alg

unfoldable pub is_aead : ℕ → Bool
is_aead encr =
    contains_alg
      (encr_aes_gcm_8 ∷ encr_aes_gcm_12 ∷ encr_aes_gcm_16 ∷ encr_aes_ccm_8 ∷ encr_aes_ccm_12
        ∷ encr_aes_ccm_16 ∷ [])
      encr

-- The locals of matchProposal.
pub record Scan : Type 0 where
  pub result : MatchedAlgorithms
  pub encr_found : Bool
  pub integ_found : Bool
  pub prf_found : Bool
  pub dh_found : Bool

-- The loop over the attributes, at the key length so far.
abbrev pub key_length_of : List Attribute → ℕ → ℕ
key_length_of [] n = n
key_length_of (a ∷ attrs) n =
    key_length_of attrs (if a.attr_type == attribute_key_length then a.val else n)

-- The switch on the type of one transform.
unfoldable pub scan_transform : ProposalMatcher → ℕ → ℕ → List Attribute → Scan → Scan
scan_transform pm ty id attrs s =
    if ty == transform_encr
    then (if contains_alg pm.supported_encr id
        then record s {
          result = record s.result {
            encr = id;
            encr_key_len = key_length_of attrs s.result.encr_key_len;
          };
          encr_found = true;
        }
        else s)
    else if ty == transform_integ
    then (if contains_alg pm.supported_integ id
        then record s { result = record s.result { integ = id }; integ_found = true }
        else s)
    else if ty == transform_prf
    then (if contains_alg pm.supported_prf id
        then record s { result = record s.result { prf = id }; prf_found = true }
        else s)
    else if ty == transform_dh
    then (if contains_alg pm.supported_dh id
        then record s { result = record s.result { dh = id }; dh_found = true }
        else s)
    else s

abbrev pub scan_transforms : ProposalMatcher → List Transform → Scan → Scan
scan_transforms pm [] s = s
scan_transforms pm (t ∷ ts) s =
    scan_transforms pm ts (scan_transform pm t.transform_type t.id t.attributes s)

-- The end of matchProposal.
unfoldable pub accept : ℕ → Scan → Option MatchedAlgorithms
accept protocol_id s =
    if protocol_id == proto_ike
    then (if s.encr_found && (s.prf_found && s.dh_found)
        then (if is_aead s.result.encr || s.integ_found then some s.result else none)
        else none)
    else if protocol_id == proto_esp
    then (if s.encr_found
        then (if is_aead s.result.encr || s.integ_found then some s.result else none)
        else none)
    else none

abbrev pub first_scan : Proposal → Scan
first_scan p = record {
  result = record {
    proposal_num = p.proposal_num;
    protocol_id = p.protocol_id;
    spi = p.spi;
    encr = 0;
    encr_key_len = 0;
    integ = 0;
    prf = 0;
    dh = 0;
  };
  encr_found = false;
  integ_found = false;
  prf_found = false;
  dh_found = false;
}

unfoldable pub match_proposal : ProposalMatcher → Proposal → Option MatchedAlgorithms
match_proposal pm p = accept p.protocol_id (scan_transforms pm p.transforms (first_scan p))

unfoldable pub select_best_proposal : ProposalMatcher → List Proposal → Option MatchedAlgorithms
select_best_proposal pm [] = none
select_best_proposal pm (p ∷ ps) = elim (match_proposal pm p) [
  | some m ↦ some m
  | none ↦ select_best_proposal pm ps
]

-- AddTransformWithKeyLen
unfoldable pub add_transform_with_key_len : Proposal → ℕ → ℕ → ℕ → Proposal
add_transform_with_key_len p t_type t_id key_len =
    let attributes =
      if ltb 0 key_len
      then record { attr_type = attribute_key_length; value = []; val = key_len % 2 ^ 16 } ∷ []
      else [] in
    record p {
      transforms =
          p.transforms
          ++ (record { last = false; transform_type = t_type; id = t_id; attributes = attributes }
              ∷ []);
    }
