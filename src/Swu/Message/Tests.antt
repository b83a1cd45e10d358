-- ===== src/Swu/Message/Tests.antt =====
-- msg_handler.go: the theorems at concrete inputs, with toy algorithms.
use swu_go.Prelude.{
  ℕ, ◌+◌, ◌%◌, ◌^◌, ◌<◌, ◌≡◌, refl, subst, true, false, none, some, List, [], ◌∷◌, map, Result, ok,
  err, ◌==◌, ==_refl, length, All, arith,
}
use swu_go.Prelude.Bytes.{Bytes, byte_at}
use swu_go.Prelude.Map.{get, put, del}
use swu_go.Ikev2.Types.{Error, header_too_short}
use swu_go.Ikev2.Header.{decode_header, decode_payload_header, encode_payload_header}
use swu_go.Ikev2.Payload.{Payload, nonce, payload_type, encode_payload, decode_payload}
use swu_go.Ikev2.Payload.RoundTrip.{settle}
use swu_go.Ikev2.Packet.{first_type, encode_chain, next_payload, decode_chain}
use swu_go.Ikev2.Packet.RoundTrip.{FitsPayload}
use swu_go.Crypto.{Encrypter, EncrypterLaws, IntegrityAlgorithm, IntegrityLaws}
use swu_go.Swu.Fragment.{add_fragment, reassemble, store_fragment, found, collect, clear_on_success}
use swu_go.Swu.Error.{ikev2}
use swu_go.Swu.Session.{Session, IkeSaKeys}
use swu_go.Swu.Message.{
  encrypt_and_wrap_with_msg_id, decrypt_decoded, decrypt_and_parse, decrypt_skf, strip_tag, unpad,
}
use swu_go.Swu.Message.Opening.{other_end, Works}
use swu_go.Swu.Message.RoundTrip.{decrypt_and_parse-encrypt_and_wrap}
use swu_go.Swu.Message.Fragments.{Completes, decrypt_and_parse_last_fragment}

-- A cipher that changes nothing, and a checksum of the length.
abbrev pub plain_cipher : Encrypter
plain_cipher = record {
  encrypt = λ text key iv aad. some text;
  decrypt = λ text key iv aad. some text;
  iv_size = 2;
  block_size = 4;
}

abbrev pub checksum : IntegrityAlgorithm
checksum = record {
  compute = λ key text. (length text % 256) ∷ [];
  verify = λ key text mac. byte_at 0 mac == length text % 256;
  output_size = 1;
}

abbrev pub no_keys : IkeSaKeys
no_keys = record {
  sk_d = [];
  sk_ai = [];
  sk_ar = [];
  sk_ei = [];
  sk_er = [];
  sk_pi = [];
  sk_pr = [];
}

abbrev pub toy : Session
toy = record {
  spi_i = 1;
  spi_r = 2;
  keys = no_keys;
  enc_alg = plain_cipher;
  integ_alg = some checksum;
  ike_is_aead = false;
  sequence_number = 0;
  fragment_buf = [];
  ike_fragment_mtu = 1280;
}

pub plain_cipher-Laws : EncrypterLaws plain_cipher [] false
plain_cipher-Laws = record { encrypts = λ text iv aad h k. (text, refl, omega arith, refl) }

pub checksum-Laws : IntegrityLaws checksum
checksum-Laws = record {
  length-compute = λ key text. refl;
  verify-compute = λ key text. ==_refl (length text % 256);
}

same_algorithm : (a : IntegrityAlgorithm) → some checksum ≡ some a → checksum ≡ a
same_algorithm a e = cc

pub toy-Works : Works toy
toy-Works = record {
  encrypts = plain_cipher-Laws;
  integrity_laws = λ a e. subst IntegrityLaws (same_algorithm a e) checksum-Laws;
  block_size = (omega arith, omega arith);
}

abbrev a_nonce : List Payload
a_nonce = nonce (1 ∷ 2 ∷ 3 ∷ []) ∷ []

abbrev a_nonce_bytes : Bytes
a_nonce_bytes = 0 ∷ 0 ∷ 0 ∷ 7 ∷ 1 ∷ 2 ∷ 3 ∷ []

a_nonce_chain : encode_chain a_nonce ≡ ok a_nonce_bytes
unfolding encode_chain encode_payload encode_payload_header
a_nonce_chain = refl

ok_length :
    (k : ℕ) (xs b : Bytes)
    → k + length xs < 2 ^ 16
    → ◌≡◌ {A = Result Error Bytes} (ok xs) (ok b)
    → k + length b < 2 ^ 16
ok_length k xs b h e = ground arith

a_nonce-Fits : All FitsPayload a_nonce
unfolding encode_payload payload_type
a_nonce-Fits = (
  record {
    body = tt;
    size = λ b e. ok_length 4 (1 ∷ 2 ∷ 3 ∷ []) b (omega arith) e;
    not_end = λ e. absurd (omega arith);
  },
  tt,
)

a_nonce_room : (b : Bytes) → encode_chain a_nonce ≡ ok b → 276 + 2 + length b + 1 < 2 ^ 16
unfolding encode_chain encode_payload encode_payload_header
a_nonce_room b e = omega (arith, ok_length 279 a_nonce_bytes b (omega arith) e)

decrypt_and_parse-encrypt_and_wrap_example :
    (packet : Bytes) × (encrypt_and_wrap_with_msg_id toy a_nonce 37 5 false (some (8 ∷ 9 ∷ []))
      ≡ ok packet)
    × (decrypt_and_parse (other_end toy toy) packet
        ≡ (record (other_end toy toy) { spi_r = toy.spi_r }, ok (5, map settle a_nonce)))
decrypt_and_parse-encrypt_and_wrap_example =
    decrypt_and_parse-encrypt_and_wrap toy toy a_nonce 37 5 false (8 ∷ 9 ∷ []) toy-Works
      (omega arith, omega arith, omega arith) refl a_nonce-Fits a_nonce_room

a_nonce_decoded : decode_chain 7 40 a_nonce_bytes ≡ ok a_nonce
unfolding decode_chain next_payload decode_payload_header decode_payload
a_nonce_decoded = refl

-- A session that has the first of two fragments, and the packet with the second.
abbrev half_done : Session
half_done = record toy {
  integ_alg = none;
  ike_is_aead = true;
  fragment_buf =
      (9, record { total = 2; received = (1, 0 ∷ 0 ∷ 0 ∷ 7 ∷ []) ∷ []; total_len = 4 }) ∷ [];
}

abbrev second_fragment : Bytes
second_fragment =
    0 ∷ 0 ∷ 0 ∷ 0 ∷ 0 ∷ 0 ∷ 0 ∷ 1 ∷ 0 ∷ 0 ∷ 0 ∷ 0 ∷ 0 ∷ 0 ∷ 0 ∷ 2 ∷ 53 ∷ 32 ∷ 36 ∷ 32 ∷ 0 ∷ 0 ∷ 0
    ∷ 9 ∷ 0 ∷ 0 ∷ 0 ∷ 41 ∷ 0 ∷ 0 ∷ 0 ∷ 13 ∷ 0 ∷ 2 ∷ 0 ∷ 2 ∷ 8 ∷ 9 ∷ 1 ∷ 2 ∷ 3 ∷ []

second_fragment-Completes : Completes half_done second_fragment 9 a_nonce_bytes []
unfolding decode_header decrypt_skf strip_tag unpad add_fragment store_fragment found reassemble
    collect clear_on_success get put del
second_fragment-Completes = record {
  header = record {
    spi_i = 1;
    spi_r = 2;
    next_payload = 53;
    version = 32;
    exchange_type = 36;
    flags = 32;
    message_id = 9;
    length = 41;
  };
  decoded = refl;
  fragment_type = refl;
  message_id = refl;
  fragment = record { text = 1 ∷ 2 ∷ 3 ∷ []; number = 2; total = 2 };
  opened = refl;
  held =
      (
        9,
        record {
          total = 2;
          received = (1, 0 ∷ 0 ∷ 0 ∷ 7 ∷ []) ∷ (2, 1 ∷ 2 ∷ 3 ∷ []) ∷ [];
          total_len = 7;
        },
      )
      ∷ [];
  complete = refl;
  whole = refl;
}

decrypt_and_parse_last_fragment_example :
    (byte_at 28 second_fragment ≡ first_type a_nonce
      → (decrypt_and_parse half_done second_fragment).1 ≡ ok (9, map settle a_nonce))
    × (byte_at 28 second_fragment ≡ 0
        → (decrypt_and_parse half_done second_fragment).1 ≡ ok (9, []))
decrypt_and_parse_last_fragment_example =
    decrypt_and_parse_last_fragment half_done second_fragment 9 a_nonce_bytes [] a_nonce
      second_fragment-Completes a_nonce-Fits a_nonce_chain

-- The second fragment carries no type, so the message is lost.
message_lost : (decrypt_and_parse half_done second_fragment).1 ≡ ok (9, [])
message_lost =
    (decrypt_and_parse_last_fragment half_done second_fragment 9 a_nonce_bytes [] a_nonce
        second_fragment-Completes a_nonce-Fits a_nonce_chain).1
      refl

-- A packet without a header.
pub no_header : (decrypt_and_parse toy []).1 ≡ err (ikev2 header_too_short)
unfolding decrypt_and_parse decrypt_decoded decode_header
no_header = refl
