-- ===== src/Ikev2/Types.antt =====
-- pkg/ikev2/constants.go: the numbers of RFC 7296 that the modelled code uses, and the errors of
-- the decoders. The Go types PayloadType, ExchangeType, ProtocolID and TransformType are uint8 and
-- AlgorithmType is uint16; here all are numbers, with their ranges in the theorems' conditions.
use swu_go.Prelude.{ℕ}

-- PayloadType, the values of constants.go
abbrev pub no_next_payload : ℕ
no_next_payload = 0

abbrev pub sa_type : ℕ
sa_type = 33

abbrev pub ke_type : ℕ
ke_type = 34

abbrev pub id_i_type : ℕ
id_i_type = 35

abbrev pub id_r_type : ℕ
id_r_type = 36

abbrev pub auth_type : ℕ
auth_type = 39

abbrev pub ni_nr_type : ℕ
ni_nr_type = 40

abbrev pub n_type : ℕ
n_type = 41

abbrev pub d_type : ℕ
d_type = 42

abbrev pub ts_i_type : ℕ
ts_i_type = 44

abbrev pub ts_r_type : ℕ
ts_r_type = 45

abbrev pub sk_type : ℕ
sk_type = 46

abbrev pub cp_type : ℕ
cp_type = 47

abbrev pub eap_type : ℕ
eap_type = 48

abbrev pub encrypted_fragment_type : ℕ
encrypted_fragment_type = 53

-- ExchangeType
abbrev pub ike_auth : ℕ
ike_auth = 35

abbrev pub create_child_sa : ℕ
create_child_sa = 36

abbrev pub informational : ℕ
informational = 37

-- ProtocolID
abbrev pub proto_ike : ℕ
proto_ike = 1

abbrev pub proto_ah : ℕ
proto_ah = 2

abbrev pub proto_esp : ℕ
proto_esp = 3

-- TransformType
abbrev pub transform_encr : ℕ
transform_encr = 1

abbrev pub transform_prf : ℕ
transform_prf = 2

abbrev pub transform_integ : ℕ
transform_integ = 3

abbrev pub transform_dh : ℕ
transform_dh = 4

abbrev pub transform_esn : ℕ
transform_esn = 5

-- Encryption algorithms
abbrev pub encr_3des : ℕ
encr_3des = 3

abbrev pub encr_aes_cbc : ℕ
encr_aes_cbc = 12

abbrev pub encr_aes_ctr : ℕ
encr_aes_ctr = 13

abbrev pub encr_aes_ccm_8 : ℕ
encr_aes_ccm_8 = 14

abbrev pub encr_aes_ccm_12 : ℕ
encr_aes_ccm_12 = 15

abbrev pub encr_aes_ccm_16 : ℕ
encr_aes_ccm_16 = 16

abbrev pub encr_aes_gcm_8 : ℕ
encr_aes_gcm_8 = 18

abbrev pub encr_aes_gcm_12 : ℕ
encr_aes_gcm_12 = 19

abbrev pub encr_aes_gcm_16 : ℕ
encr_aes_gcm_16 = 20

-- Attribute types
abbrev pub attribute_key_length : ℕ
attribute_key_length = 14

-- Flags of the header (header.go)
abbrev pub flag_initiator : ℕ
flag_initiator = 8

abbrev pub flag_response : ℕ
flag_response = 32

-- The errors that the decoders of pkg/ikev2 return, one for each errors.New.
pub data Error : Type 0 where
  header_too_short : Error
  generic_header_too_short : Error
  no_payload_header : Error
  no_payload_body : Error
  sa_no_proposal_header : Error
  sa_no_proposal_body : Error
  proposal_too_short : Error
  proposal_no_spi : Error
  proposal_no_transforms : Error
  proposal_no_transform_header : Error
  proposal_no_transform_body : Error
  transform_too_short : Error
  transform_no_attribute_header : Error
  transform_attribute_truncated : Error
  ts_too_short : Error
  ts_no_selector_header : Error
  ts_no_selector_body : Error
  ts_ipv4_length : Error
  ts_ipv6_length : Error
  ts_unsupported_type : Error
  delete_too_short : Error
  delete_no_spis : Error
  notify_too_short : Error
  notify_no_spi : Error
  id_too_short : Error
  ke_too_short : Error
  auth_too_short : Error
  cp_too_short : Error
  cp_attribute_too_short : Error
  cp_value_too_short : Error
  -- `fmt.Errorf("...", type, err)` of DecodePacket.
  payload_failed : ℕ → Error → Error
