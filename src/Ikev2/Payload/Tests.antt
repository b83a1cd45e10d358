-- ===== src/Ikev2/Payload/Tests.antt =====
-- payload.go: the theorems at concrete inputs.
use swu_go.Prelude.{◌≡◌, refl, [], ◌∷◌, ok, arith}
use swu_go.Prelude.Bytes.{Bytes}
use swu_go.Ikev2.Body.{Notify}
use swu_go.Ikev2.Payload.{Payload, notify, payload_type, encode_payload, decode_payload}
use swu_go.Ikev2.Payload.RoundTrip.{FitsBody, settle, decode_payload-encode_payload}

-- A notification with an SPI.
abbrev pub a_notification : Notify
a_notification = record {
  protocol_id = 3;
  spi = 1 ∷ 2 ∷ [];
  notify_type = 16393;
  notify_data = 9 ∷ [];
  override_type = 0;
}

abbrev pub a_notify : Payload
a_notify = notify a_notification

pub a_notify-Fits : FitsBody a_notify
a_notify-Fits = record { spi = omega arith; notify_type = omega arith; no_override = refl }

decode_payload-encode_payload_example :
    (b : Bytes) × (encode_payload a_notify ≡ ok b)
    × (decode_payload (payload_type a_notify) b ≡ ok (settle a_notify))
decode_payload-encode_payload_example = decode_payload-encode_payload a_notify a_notify-Fits
