-- ===== src/Swu/Message/Fragments.antt =====
-- msg_handler.go: what becomes of the fragment that completes a message.
use swu_go.Prelude.{ℕ, ◌≡◌, refl, sym, ap, ◌∙◌, true, List, [], ◌∷◌, map, Result, ok, All}
use swu_go.Prelude.Bytes.{Bytes, byte_at}
use swu_go.Ikev2.Types.{Error, encrypted_fragment_type}
use swu_go.Ikev2.Header.{IkeHeader, decode_header}
use swu_go.Ikev2.Payload.{Payload}
use swu_go.Ikev2.Payload.RoundTrip.{settle}
use swu_go.Ikev2.Packet.{first_type, encode_chain}
use swu_go.Ikev2.Packet.RoundTrip.{FitsPayload}
use swu_go.Swu.Fragment.{FragmentBuffer, add_fragment, reassemble}
use swu_go.Swu.Session.{Session}
use swu_go.Swu.Message.{
  OpenFragment, decrypt_skf, take_fragment, parse_loop, parse_payloads, dispatch, decrypt_decoded,
  decrypt_and_parse,
}
use swu_go.Swu.Message.Payloads.{parse_payloads-encode_chain}

parse_payloads_none : (text : Bytes) → parse_payloads text 0 ≡ ok []
unfolding parse_payloads parse_loop
parse_payloads_none [] = refl
parse_payloads_none (b ∷ bs) = refl

-- The session and the packet, and what the fragment that they give does to the buffer.
pub record Completes (s : Session) (packet : Bytes) (id : ℕ) (joined : Bytes)
    (left : FragmentBuffer) : Type 0 where
  pub header : IkeHeader
  pub decoded : decode_header packet ≡ ok header
  pub fragment_type : header.next_payload ≡ encrypted_fragment_type
  pub message_id : header.message_id ≡ id
  pub fragment : OpenFragment
  pub opened : decrypt_skf (record s { spi_r = header.spi_r }) packet ≡ ok fragment
  pub held : FragmentBuffer
  pub complete :
      add_fragment id fragment.number fragment.total fragment.text s.fragment_buf ≡ (held, ok true)
  pub whole : reassemble id held ≡ (left, ok joined)

take_fragment_completes :
    (s : Session) (packet : Bytes) (id : ℕ) (f : OpenFragment) (held left : FragmentBuffer)
    (joined : Bytes)
    → add_fragment id f.number f.total f.text s.fragment_buf ≡ (held, ok true)
    → reassemble id held ≡ (left, ok joined)
    → take_fragment s packet id (ok f)
      ≡ (record s { fragment_buf = left }, parse_payloads joined (byte_at 28 packet))
unfolding take_fragment
take_fragment_completes s packet id f held left joined a r =
    rw (a, take_fragment) (rw a (rw r refl))

decrypt_and_parse-Completes :
    (s : Session) (packet : Bytes) (id : ℕ) (joined : Bytes) (left : FragmentBuffer)
    (ps : List Payload)
    → Completes s packet id joined left
    → parse_payloads joined (byte_at 28 packet) ≡ ok ps
    → (decrypt_and_parse s packet).1 ≡ ok (id, ps)
unfolding decrypt_and_parse decrypt_decoded dispatch
decrypt_and_parse-Completes s packet id joined left ps c e = rw c.decoded (
    rw c.fragment_type (
      rw (c.opened, c.message_id)
        (rw
          (take_fragment_completes (record s { spi_r = c.header.spi_r }) packet id c.fragment c.held
            left joined c.complete c.whole)
          (rw e refl))))

-- When a fragment completes a message whose joined plaintexts are the chain of payloads `ps`, then
-- decryptAndParse reads the type of the first payload from the generic header of that last fragment: if
-- it stands there, the payloads are returned as they were encoded; if the fragment carries 0, as all
-- but the first do that fragmentMessage sends, no payload is returned, and no error.
pub decrypt_and_parse_last_fragment :
    (s : Session) (packet : Bytes) (id : ℕ) (joined : Bytes) (left : FragmentBuffer)
    (ps : List Payload)
    → Completes s packet id joined left
    → All FitsPayload ps
    → encode_chain ps ≡ ok joined
    → (byte_at 28 packet ≡ first_type ps → (decrypt_and_parse s packet).1 ≡ ok (id, map settle ps))
      × (byte_at 28 packet ≡ 0 → (decrypt_and_parse s packet).1 ≡ ok (id, []))
decrypt_and_parse_last_fragment s packet id joined left ps c f e =
    let (b, chain, back) = parse_payloads-encode_chain ps f in
    let same : b ≡ joined = same_bytes b joined (sym chain ∙ e) in
    (
      (λ t.
          decrypt_and_parse-Completes s packet id joined left (map settle ps) c
            (rw t (ap (λ xs. parse_payloads xs (first_type ps)) (sym same) ∙ back))),
      (λ z.
          decrypt_and_parse-Completes s packet id joined left [] c
            (rw z (parse_payloads_none joined))),
    )
  where
    same_bytes : (x y : Bytes) → ◌≡◌ {A = Result Error Bytes} (ok x) (ok y) → x ≡ y
    same_bytes x y h = cc
