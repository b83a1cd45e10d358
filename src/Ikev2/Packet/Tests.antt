-- ===== src/Ikev2/Packet/Tests.antt =====
-- packet.go: runs, and the theorems at concrete inputs.
use swu_go.Prelude.{
  ◌+◌, ◌%◌, ◌^◌, ◌<◌, ◌≡◌, List, [], ◌∷◌, map, Result, ok, panic, length, All, arith,
}
use swu_go.Prelude.Bytes.{Bytes}
use swu_go.Ikev2.Types.{Error}
use swu_go.Ikev2.Header.{IkeHeader, FitsHeader}
use swu_go.Ikev2.Body.{encode_notify}
use swu_go.Ikev2.Payload.{Payload, nonce, payload_type, encode_payload}
use swu_go.Ikev2.Payload.RoundTrip.{settle}
use swu_go.Ikev2.Payload.Tests.{a_notification, a_notify, a_notify-Fits}
use swu_go.Ikev2.Packet.{first_type, encode_packet, decode_packet}
use swu_go.Ikev2.Packet.RoundTrip.{FitsPayload, decode_packet-encode_packet}
use swu_go.Ikev2.Packet.Malformed.{decode_packet_panics}

abbrev a_header : IkeHeader
a_header = record {
  spi_i = 0x1122334455667788;
  spi_r = 0;
  next_payload = 0;
  version = 0x20;
  exchange_type = 34;
  flags = 8;
  message_id = 0;
  length = 0;
}

a_header-Fits : FitsHeader a_header
a_header-Fits = record {
  spi_i = omega arith;
  spi_r = omega arith;
  message_id = omega arith;
  length = omega arith;
}

abbrev two_payloads : List Payload
two_payloads = nonce (1 ∷ 2 ∷ 3 ∷ []) ∷ a_notify ∷ []

ok_length :
    (xs b : Bytes)
    → 4 + length xs < 2 ^ 16
    → ◌≡◌ {A = Result Error Bytes} (ok xs) (ok b)
    → 4 + length b < 2 ^ 16
ok_length xs b h e = ground arith

two_payloads-Fits : All FitsPayload two_payloads
unfolding encode_payload encode_notify payload_type
two_payloads-Fits = (
  record {
    body = tt;
    size = λ b e. ok_length (1 ∷ 2 ∷ 3 ∷ []) b (omega arith) e;
    not_end = λ e. absurd (omega arith);
  },
  (
    record {
      body = a_notify-Fits;
      size = λ b e. ok_length (encode_notify a_notification) b (omega arith) e;
      not_end = λ e. absurd (omega arith);
    },
    tt,
  ),
)

decode_packet-encode_packet_example :
    (b : Bytes) × (let h' = record a_header {
      next_payload = first_type two_payloads;
      length = length b % 2 ^ 32;
    } in
      (encode_packet a_header two_payloads ≡ ok (h', b))
      × (decode_packet b ≡ ok (h', map settle two_payloads)))
decode_packet-encode_packet_example =
    decode_packet-encode_packet a_header two_payloads a_header-Fits two_payloads-Fits

-- A generic header with the length 3.
abbrev short_length : Bytes
short_length = 0 ∷ 0 ∷ 0 ∷ 3 ∷ []

-- A message of 32 bytes from anyone.
abbrev short_packet : Bytes
short_packet =
    0 ∷ 0 ∷ 0 ∷ 0 ∷ 0 ∷ 0 ∷ 0 ∷ 1 ∷ 0 ∷ 0 ∷ 0 ∷ 0 ∷ 0 ∷ 0 ∷ 0 ∷ 2 ∷ 40 ∷ 32 ∷ 34 ∷ 32 ∷ 0 ∷ 0 ∷ 0
    ∷ 0 ∷ 0 ∷ 0 ∷ 0 ∷ 32 ∷ short_length

decode_packet_panics_example : decode_packet short_packet ≡ panic
decode_packet_panics_example =
    decode_packet_panics short_packet (omega arith) (λ e. absurd (omega arith)) (omega arith)
