-- ===== src/Swu/Session.antt =====
-- pkg/swu/session.go: the fields of a session that the modelled operations use.
use swu_go.Prelude.{ℕ, ◌+◌, ◌%◌, ◌^◌, Bool, Option, none, some, if◌then◌else◌}
use swu_go.Prelude.Bytes.{Bytes}
use swu_go.Crypto.{Encrypter, IntegrityAlgorithm}
use swu_go.Swu.Fragment.{FragmentBuffer}

-- IKESAKeys of pkg/ikev2/keys.go.
pub record IkeSaKeys : Type 0 where
  pub sk_d : Bytes
  pub sk_ai : Bytes
  pub sk_ar : Bytes
  pub sk_ei : Bytes
  pub sk_er : Bytes
  pub sk_pi : Bytes
  pub sk_pr : Bytes

pub record Session : Type 0 where
  pub spi_i : ℕ
  pub spi_r : ℕ
  pub keys : IkeSaKeys
  pub enc_alg : Encrypter
  pub integ_alg : Option IntegrityAlgorithm
  pub ike_is_aead : Bool
  pub sequence_number : ℕ
  pub fragment_buf : FragmentBuffer
  pub ike_fragment_mtu : ℕ

-- The algorithm of `if !s.ikeIsAEAD && s.IntegAlg != nil`.
abbrev pub integrity : Session → Option IntegrityAlgorithm
integrity s = if s.ike_is_aead then none else s.integ_alg

-- The size of its tag, or 0.
abbrev pub icv_size : Session → ℕ
icv_size s = elim (integrity s) [ none ↦ 0 | some a ↦ a.output_size ]

-- NextSequenceNumber: an atomic increment of a uint32, and the old value.
unfoldable pub next_sequence_number : Session → Session × ℕ
next_sequence_number s =
    (record s { sequence_number = (s.sequence_number + 1) % 2 ^ 32 }, s.sequence_number)
