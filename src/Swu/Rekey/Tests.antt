-- ===== src/Swu/Rekey/Tests.antt =====
-- state_rekey.go: a run, and the theorems at concrete inputs, with toy algorithms.
use swu_go.Prelude.{ℕ, ◌≡◌, refl, true, false, none, some, List, [], ◌∷◌, err}
use swu_go.Prelude.Bytes.{be32}
use swu_go.Ikev2.Sa.{Proposal}
use swu_go.Ikev2.Payload.{Payload, sa, nonce}
use swu_go.Crypto.Choice.{Algorithms}
use swu_go.Crypto.Prf.Tests.{toy_prf}
use swu_go.Ipsec.Esp.{new_security_association}
use swu_go.Ikev2.Types.{header_too_short}
use swu_go.Swu.Error.{ikev2}
use swu_go.Swu.Message.{decrypt_and_parse}
use swu_go.Swu.Message.Tests.{toy, no_header, plain_cipher, checksum}
use swu_go.Swu.Rekey.{Tunnel, ChildSa, Found, Suite, no_message, handle_create_child_sa_resp}
use swu_go.Swu.Rekey.Switch.{handle_create_child_sa_resp-Kept}

abbrev pub toy_algorithms : Algorithms
toy_algorithms = record {
  aes_cbc = λ size. plain_cipher;
  aes_gcm = λ size. plain_cipher;
  integrity = λ id. checksum;
}

abbrev pub sa_of : ℕ → ℕ → ChildSa
sa_of spi remote = record {
  association = new_security_association spi plain_cipher [] [];
  remote_spi = remote;
}

abbrev pub tunnel : Tunnel
tunnel = record {
  session = toy;
  prf_alg = toy_prf;
  child_sa_out = some (sa_of 70 71);
  child_sa_in = some (sa_of 71 70);
  child_sas_in = some ((71, sa_of 71 70) ∷ []);
  child_out_policies = record { sa_out = some (sa_of 70 71); tsr = [] } ∷ [];
  tsr = [];
}

-- AES-CBC with keys of 128 bits, and HMAC-SHA2-256.
abbrev pub chosen : Proposal
chosen = record {
  last = true;
  proposal_num = 1;
  protocol_id = 3;
  spi = be32 80;
  transforms =
      record {
        last = false;
        transform_type = 1;
        id = 12;
        attributes = record { attr_type = 14; value = []; val = 128 } ∷ [];
      }
      ∷ record { last = true; transform_type = 3; id = 12; attributes = [] }
      ∷ [];
}

abbrev response : List Payload
response = sa (chosen ∷ []) ∷ nonce (5 ∷ 6 ∷ []) ∷ []

abbrev found_in_response : Found
found_in_response = record {
  resp_sa = true;
  resp_nonce = some (5 ∷ 6 ∷ []);
  resp_spi = 80;
  encr_id = 12;
  integ_id = 12;
  encr_key_len_bits = 128;
}

abbrev pub suite : Suite
suite = record { encrypter = plain_cipher; enc_len = 16; integrity = some checksum; integ_len = 32 }

-- A packet without a header.
no_answer :
    (handle_create_child_sa_resp toy_algorithms tunnel [] (1 ∷ []) 90 none).1
    ≡ err (no_message (ikev2 header_too_short))
unfolding handle_create_child_sa_resp
no_answer = rw (no_header, handle_create_child_sa_resp) refl

handle_create_child_sa_resp-Kept_example :
    (handle_create_child_sa_resp toy_algorithms tunnel [] (1 ∷ []) 90 none).0
    ≡ record tunnel { session = (decrypt_and_parse toy []).0 }
handle_create_child_sa_resp-Kept_example =
    handle_create_child_sa_resp-Kept toy_algorithms tunnel [] (1 ∷ []) 90 none
      (no_message (ikev2 header_too_short)) no_answer
