-- ===== src/Ikev2/Payload.antt =====
-- pkg/ikev2/payload.go: the Payload interface, one constructor for each type that implements it, and
-- the choice of a decoder by payload type, which DecodePacket (packet.go) and parsePayloads
-- (pkg/swu/msg_handler.go) both make.
pub mod RoundTrip
pub mod Tests
use swu_go.Prelude.{ℕ, Bool, true, false, List, Result, ok, err, ◌>>=◌, ◌==◌, if◌then◌else◌}
use swu_go.Prelude.Bytes.{Bytes}
use swu_go.Ikev2.Types.{
  Error, sa_type, ke_type, id_i_type, id_r_type, auth_type, ni_nr_type, n_type, d_type, ts_i_type,
  ts_r_type, cp_type, eap_type,
}
use swu_go.Ikev2.Body.{
  Ke, Identity, Auth, Notify, Delete, encode_ke, decode_ke, encode_id, decode_id, encode_auth,
  decode_auth, encode_notify, decode_notify, encode_delete, decode_delete,
}
use swu_go.Ikev2.Sa.{Proposal, encode_sa, decode_sa}
use swu_go.Ikev2.Ts.{TrafficSelector, encode_ts, decode_ts}
use swu_go.Ikev2.Cp.{Cp, encode_cp, decode_cp}

pub data Payload : Type 0 where
  sa : List Proposal → Payload
  ke : Ke → Payload
  nonce : Bytes → Payload
  identity : Identity → Payload
  auth : Auth → Payload
  eap : Bytes → Payload
  notify : Notify → Payload
  delete : Delete → Payload
  ts : Bool → List TrafficSelector → Payload
  cp : Cp → Payload
  raw : ℕ → Bytes → Payload

-- The method Type.
unfoldable pub payload_type : Payload → ℕ
payload_type (sa ps) = sa_type
payload_type (ke p) = ke_type
payload_type (nonce bs) = ni_nr_type
payload_type (identity p) = if p.is_initiator then id_i_type else id_r_type
payload_type (auth p) = auth_type
payload_type (eap bs) = eap_type
payload_type (notify p) = if p.override_type == 0 then n_type else p.override_type
payload_type (delete p) = d_type
payload_type (ts is_initiator xs) = if is_initiator then ts_i_type else ts_r_type
payload_type (cp p) = cp_type
payload_type (raw t bs) = t

-- The method Encode. No type's Encode returns an error; one for traffic selectors can panic.
unfoldable pub encode_payload : Payload → Result Error Bytes
encode_payload (sa ps) = ok (encode_sa ps)
encode_payload (ke p) = ok (encode_ke p)
encode_payload (nonce bs) = ok bs
encode_payload (identity p) = ok (encode_id p)
encode_payload (auth p) = ok (encode_auth p)
encode_payload (eap bs) = ok bs
encode_payload (notify p) = ok (encode_notify p)
encode_payload (delete p) = ok (encode_delete p)
encode_payload (ts is_initiator xs) = encode_ts xs
encode_payload (cp p) = ok (encode_cp p)
encode_payload (raw t bs) = ok bs

abbrev wrap : {A : Type 0} → (A → Payload) → Result Error A → Result Error Payload
wrap make r = r >>= λ a. ok (make a)

-- The `switch nextPayloadType`.
unfoldable pub decode_payload : ℕ → Bytes → Result Error Payload
decode_payload t body =
    if t == sa_type
    then wrap sa (decode_sa body)
    else if t == ke_type
    then wrap ke (decode_ke body)
    else if t == ni_nr_type
    then ok (nonce body)
    else if t == id_i_type
    then wrap identity (decode_id body true)
    else if t == id_r_type
    then wrap identity (decode_id body false)
    else if t == auth_type
    then wrap auth (decode_auth body)
    else if t == eap_type
    then ok (eap body)
    else if t == n_type
    then wrap notify (decode_notify body)
    else if t == d_type
    then wrap delete (decode_delete body)
    else if t == ts_i_type
    then wrap (ts true) (decode_ts body)
    else if t == ts_r_type
    then wrap (ts false) (decode_ts body)
    else if t == cp_type
    then wrap cp (decode_cp body)
    else ok (raw t body)
