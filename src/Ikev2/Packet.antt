-- ===== src/Ikev2/Packet.antt =====
-- pkg/ikev2/packet.go: a whole message, a header and a chain of payloads, each behind a generic
-- header that names the type of the next one.
pub mod RoundTrip
pub mod Malformed
mod Tests
use swu_go.Prelude.{
  ℕ, zero, suc, ◌+◌, ◌-◌, ◌%◌, ◌^◌, false, true, List, [], ◌∷◌, ◌++◌, Result, ok, err, panic, stuck,
  ◌>>=◌, ltb, ◌==◌, if◌then◌else◌, shorter, length, take, drop,
}
use swu_go.Prelude.Bytes.{Bytes}
use swu_go.Ikev2.Types.{Error, no_next_payload, no_payload_header, no_payload_body, payload_failed}
use swu_go.Ikev2.Header.{
  IkeHeader, encode_header, decode_header, PayloadHeader, encode_payload_header,
  decode_payload_header, generic_header, ike_header_len, payload_header_len,
}
use swu_go.Ikev2.Payload.{Payload, payload_type, encode_payload, decode_payload}

abbrev pub first_type : List Payload → ℕ
first_type [] = no_next_payload
first_type (p ∷ ps) = payload_type p

-- The loop over the payloads of (*IKEPacket).Encode; fragmentMessage and encryptAndWrapWithMsgID of
-- pkg/swu have the same loop.
unfoldable pub encode_chain : List Payload → Result Error Bytes
encode_chain [] = ok []
encode_chain (p ∷ ps) = do
  body ← encode_payload p
  rest ← encode_chain ps
  ok (
      encode_payload_header
        (generic_header (first_type ps) false ((payload_header_len + length body) % 2 ^ 16))
      ++ (body ++ rest))

-- Encode sets two fields of the packet's header, so the header that it leaves is a result.
unfoldable pub encode_packet : IkeHeader → List Payload → Result Error (IkeHeader × Bytes)
encode_packet h ps = do
  payloads_data ← encode_chain ps
  let h' = record h {
    next_payload = first_type ps;
    length = (ike_header_len + length payloads_data) % 2 ^ 32;
  }
  ok (h', encode_header h' ++ payloads_data)

abbrev pub in_payload : ℕ → Result Error Payload → Result Error Payload
in_payload t (ok p) = ok p
in_payload t (err e) = err (payload_failed t e)
in_payload t panic = panic
in_payload t stuck = stuck

-- One round of the loop of DecodePacket at `data[offset:]`: the payload, the type of the next one, and
-- the bytes taken. The slice `data[offset+4 : offset+payloadLen]` panics if payloadLen is below 4.
unfoldable pub next_payload : ℕ → Bytes → Result Error (Payload × ℕ × ℕ)
next_payload t buf = if shorter buf payload_header_len then err no_payload_header else do
  h ← decode_payload_header (take payload_header_len buf)
  if shorter buf h.payload_length
      then err no_payload_body
      else if ltb h.payload_length payload_header_len
      then panic
      else do
        p ← in_payload t (decode_payload t (take (h.payload_length - 4) (drop 4 buf)))
        ok (p, h.next_payload, h.payload_length)

unfoldable pub decode_chain : ℕ → ℕ → Bytes → Result Error (List Payload)
decode_chain fuel t [] = ok []
decode_chain zero t (b ∷ bs) = stuck
decode_chain (suc fuel) t (b ∷ bs) = elim (t == no_next_payload) [
  | true ↦ ok []
  | false ↦ do
    (p, next, n) ← next_payload t (b ∷ bs)
    ps ← decode_chain fuel next (drop n (b ∷ bs))
    ok (p ∷ ps)
]

-- A round that does not panic takes 4 bytes at least, so the length of the input is fuel enough.
unfoldable pub decode_packet : Bytes → Result Error (IkeHeader × List Payload)
decode_packet buf = do
  h ← decode_header buf
  ps ← decode_chain (length (drop ike_header_len buf)) h.next_payload (drop ike_header_len buf)
  ok (h, ps)
