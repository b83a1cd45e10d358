-- ===== src/Swu/Sending/Tests.antt =====
-- fragment.go, the sending side: runs, and the theorem at a concrete input.
use swu_go.Prelude.Map.{get}
use swu_go.Ikev2.Header.{encode_payload_header}
use swu_go.Swu.Session.{Session}
use swu_go.Ikev2.Payload.{Payload}
use swu_go.Swu.Message.Opening.{Works}
use swu_go.Swu.Fragment.{reassemble}
use swu_go.Swu.Fragment.Reassembly.{feed, numbered, answers}
use swu_go.Swu.Sending.EndToEnd.{sent_from, chunks, Opens, fragment_message-reassemble}
use swu_go.Crypto.{Encrypter, EncrypterLaws}
use swu_go.Prelude.{
  ap, ◌++◌, ◌-◌, length, take, replicate, length-append, take-append_eq, ℕ, List, ◌≡◌, refl, true,
  false, some, none, [], ◌∷◌, ok, panic, if◌then◌else◌, ◌==◌, arith,
}
use swu_go.Prelude.Bytes.{overwrite, Bytes, byte_at}
use swu_go.Ikev2.Payload.{nonce, encode_payload}
use swu_go.Ikev2.Packet.{encode_chain}
use swu_go.Swu.Message.{decrypt_skf}
use swu_go.Swu.Message.Opening.{other_end}
use swu_go.Swu.Message.Tests.{toy, toy-Works}
use swu_go.Swu.Sending.{
  pad_in_place, build_skf_packet, should_fragment, bodies_size, fragment_message, send_inner,
  send_room,
}
use swu_go.Swu.Sending.RoundTrip.{decrypt_skf-build_skf_packet}

decrypt_skf-build_skf_packet_example :
    (packet : Bytes) × (build_skf_packet toy (1 ∷ 2 ∷ 3 ∷ []) 2 3 9 37 40 (some (8 ∷ 9 ∷ []))
      ≡ ok packet)
    × (decrypt_skf (other_end toy toy) packet
        ≡ ok (record { text = 1 ∷ 2 ∷ 3 ∷ []; number = 2; total = 3 }))
    × (byte_at 28 packet ≡ (if 2 == 1 then 40 else 0))
decrypt_skf-build_skf_packet_example =
    decrypt_skf-build_skf_packet toy toy (1 ∷ 2 ∷ 3 ∷ []) 2 3 9 37 40 (8 ∷ 9 ∷ []) toy-Works
      (omega arith) (omega arith) refl

-- An MTU of 71 leaves 4 bytes, the size of a block, and the division by 0 panics.
no_room :
    (fragment_message
      (record toy { ike_fragment_mtu = 71 })
      0
      (nonce (1 ∷ []) ∷ [])
      37
      (λ i. none)).1
    ≡ panic
unfolding fragment_message send_inner send_room encode_chain encode_payload
no_room = refl

-- A message of 28 + 4 + 2 + 5 + 1 bytes is cut if the limit is smaller.
limits :
    (should_fragment true (record toy { ike_fragment_mtu = 39 }) (nonce (1 ∷ []) ∷ []) ≡ ok true)
    × (should_fragment true (record toy { ike_fragment_mtu = 40 }) (nonce (1 ∷ []) ∷ []) ≡ ok false)
unfolding should_fragment bodies_size encode_payload
limits = (refl, refl)

-- An AEAD that appends a tag of zeros.
abbrev zero_tag : Encrypter
zero_tag = record {
  encrypt = λ text key iv aad. some (text ++ replicate 16 0);
  decrypt = λ text key iv aad. some (take (length text - 16) text);
  iv_size = 2;
  block_size = 4;
}

without_tag :
    (text : Bytes) → take (length (text ++ replicate 16 0) - 16) (text ++ replicate 16 0) ≡ text
without_tag text =
    take-append_eq (length (text ++ replicate 16 0) - 16) text (replicate 16 0)
      (omega (arith, length-append text (replicate 16 0)))

zero_tag-Laws : EncrypterLaws zero_tag [] true
zero_tag-Laws = record {
  encrypts = λ text iv aad h k. (
    text ++ replicate 16 0,
    refl,
    length-append text (replicate 16 0),
    ap some (without_tag text),
  );
}

-- 7 bytes of a nonce and 4 of its header, in chunks of 5.
abbrev cut_session : Session
cut_session = record toy {
  enc_alg = zero_tag;
  integ_alg = none;
  ike_is_aead = true;
  ike_fragment_mtu = 87;
}

abbrev a_nonce : List Payload
a_nonce = nonce (1 ∷ 2 ∷ 3 ∷ 4 ∷ 5 ∷ 6 ∷ 7 ∷ []) ∷ []

abbrev a_text : Bytes
a_text = 0 ∷ 0 ∷ 0 ∷ 11 ∷ 1 ∷ 2 ∷ 3 ∷ 4 ∷ 5 ∷ 6 ∷ 7 ∷ []

a_text_eq : encode_chain a_nonce ≡ ok a_text
unfolding encode_chain encode_payload encode_payload_header
a_text_eq = refl

abbrev late : List (ℕ × Bytes)
late = (1, 0 ∷ 0 ∷ 0 ∷ 11 ∷ 1 ∷ []) ∷ (2, 2 ∷ 3 ∷ 4 ∷ 5 ∷ 6 ∷ []) ∷ []

late-same : (i : ℕ) → get i ((3, 7 ∷ []) ∷ late) ≡ get i (numbered 1 (chunks cut_session a_text))
unfolding get
late-same i = ground arith

cut_session-Works : Works cut_session
cut_session-Works = record {
  encrypts = zero_tag-Laws;
  integrity_laws = λ a e. cc;
  block_size = (omega arith, omega arith);
}

fragment_message-reassemble_example :
    let (fb', said) = feed 9 3 ((3, 7 ∷ []) ∷ late) [] in
    (packets : List Bytes) × ((fragment_message cut_session 0 a_nonce 37 (λ i. some (8 ∷ 9 ∷ []))).1
      ≡ ok (some packets))
    × Opens (other_end cut_session toy) 3 packets (numbered 1 (chunks cut_session a_text))
    × (said ≡ answers ((3, 7 ∷ []) ∷ late))
    × ((reassemble 9 fb').1 ≡ ok a_text)
unfolding get
fragment_message-reassemble_example =
    fragment_message-reassemble cut_session toy 0 a_nonce 37 (λ i. some (8 ∷ 9 ∷ []))
      (λ i. 8 ∷ 9 ∷ []) a_text 9 (3, 7 ∷ []) late [] cut_session-Works refl (λ j. refl) (λ j. refl)
      a_text_eq (omega arith) (omega arith) (omega arith) refl refl (omega arith)
      (refl, (refl, (refl, tt))) late-same

-- With a block cipher the padding of each chunk, 0 0 2, is written over the start of the next one.
padding_overwrites :
    sent_from toy 0 5 a_text 0 3
    ≡ (0 ∷ 0 ∷ 0 ∷ 11 ∷ 1 ∷ []) ∷ (0 ∷ 0 ∷ 2 ∷ 5 ∷ 6 ∷ []) ∷ (7 ∷ []) ∷ []
unfolding sent_from pad_in_place overwrite
padding_overwrites = refl
