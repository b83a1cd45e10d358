-- ===== src/Swu/Error.antt =====
-- The errors of the modelled part of pkg/swu, one for each errors.New or fmt.Errorf.
use swu_go.Prelude.{Result, ok, err, panic, stuck}
use swu_go.Ikev2.Types

pub data SwuError : Type 0 where
  -- An error of pkg/ikev2, passed on.
  ikev2 : Types.Error → SwuError
  fragment_total_mismatch : SwuError
  fragments_too_large : SwuError
  no_fragments : SwuError
  fragment_missing : SwuError
  fragment_mtu_too_small : SwuError
  too_many_fragments : SwuError
  no_randomness : SwuError
  invalid_block_size : SwuError
  encryption_failed : SwuError
  encryption_length_mismatch : SwuError
  length_field_mismatch : SwuError
  skf_no_generic_header : SwuError
  skf_no_fragment_header : SwuError
  skf_no_iv : SwuError
  skf_no_icv : SwuError
  sk_too_short : SwuError
  sk_no_iv : SwuError
  sk_no_icv : SwuError
  integrity_failed : SwuError
  decryption_failed : SwuError
  plaintext_too_short : SwuError
  padding_invalid : SwuError
  payload_too_short : SwuError

abbrev pub lift : {A : Type 0} → Result Types.Error A → Result SwuError A
lift (ok a) = ok a
lift (err e) = err (ikev2 e)
lift panic = panic
lift stuck = stuck
