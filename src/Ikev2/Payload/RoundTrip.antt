-- ===== src/Ikev2/Payload/RoundTrip.antt =====
-- payload.go: every kind of payload, encoded and decoded by its own type.
use swu_go.Prelude.{
  ℕ, ◌^◌, ◌<◌, ◌≡◌, ◌≢◌, refl, ap, ◌∙◌, Bool, true, false, Result, ok, ◌>>=◌, length, All, Returns,
  >>=-Returns, if◌then◌else◌, ◌==◌, arith,
}
use swu_go.Prelude.Bytes.{Bytes}
use swu_go.Ikev2.Types.{Error, n_type}
use swu_go.Ikev2.Body.{
  Identity, FitsNotify, FitsDelete, encode_id, encode_notify, decode_id, encode_auth, decode_auth,
  decode_ke, decode_notify, decode_delete, decode_ke-encode_ke, decode_notify-encode_notify,
  decode_delete-encode_delete,
}
use swu_go.Ikev2.Sa.{settle_sa, decode_sa}
use swu_go.Ikev2.Sa.RoundTrip.{FitsProposal, decode_sa-encode_sa}
use swu_go.Ikev2.Sa.Total.{decode_sa-Returns}
use swu_go.Ikev2.Ts.RoundTrip.{FitsSelector, decode_ts-encode_ts, decode_ts-Returns}
use swu_go.Ikev2.Cp.RoundTrip.{FitsCpAttribute, decode_cp-encode_cp, decode_cp-Returns}
use swu_go.Ikev2.Ts.{decode_ts}
use swu_go.Ikev2.Cp.{decode_cp}
use swu_go.Ikev2.Payload.{
  Payload, sa, ke, nonce, identity, auth, eap, notify, delete, ts, cp, raw, payload_type,
  encode_payload, decode_payload,
}

-- No case of the switch is for the type `t`.
abbrev pub IsUnknown : ℕ → Type 0
IsUnknown t =
    (t ≢ 33)
    × (t ≢ 34)
    × (t ≢ 35)
    × (t ≢ 36)
    × (t ≢ 39)
    × (t ≢ 40)
    × (t ≢ 41)
    × (t ≢ 42)
    × (t ≢ 44)
    × (t ≢ 45)
    × (t ≢ 47)
    × (t ≢ 48)

-- The fields fit their widths.
abbrev pub FitsBody : Payload → Type 0
FitsBody (sa ps) = All FitsProposal ps
FitsBody (ke p) = p.dh_group < 2 ^ 16
FitsBody (nonce bs) = Unit {0}
FitsBody (identity p) = Unit {0}
FitsBody (auth p) = Unit {0}
FitsBody (eap bs) = Unit {0}
FitsBody (notify p) = FitsNotify p
FitsBody (delete p) = FitsDelete p
FitsBody (ts is_initiator xs) = (length xs < 256) × All FitsSelector xs
FitsBody (cp p) = All FitsCpAttribute p.attributes
FitsBody (raw t bs) = IsUnknown t

-- The payload as Encode leaves it.
abbrev pub settle : Payload → Payload
settle (sa ps) = sa (settle_sa ps)
settle p = p

identity_back :
    (t : ℕ) (xs : Bytes) (is_initiator : Bool)
    → let p : Identity = record { id_type = t; id_data = xs; is_initiator = is_initiator } in
      decode_payload (payload_type (identity p)) (encode_id p) ≡ ok (identity p)
unfolding decode_payload payload_type encode_id decode_id
identity_back t xs true = refl
identity_back t xs false = refl

notify_type_of : (o : ℕ) → o ≡ 0 → (if o == 0 then n_type else o) ≡ n_type
notify_type_of o e = ground arith

-- A payload of known type, or of a type that no case of the switch is for, whose fields fit their widths is
-- encoded without error, and decoding the bytes by the payload's type gives the payload that Encode
-- leaves behind.
pub decode_payload-encode_payload :
    (p : Payload)
    → FitsBody p
    → (b : Bytes) × (encode_payload p ≡ ok b) × (decode_payload (payload_type p) b ≡ ok (settle p))
unfolding encode_payload decode_payload payload_type
decode_payload-encode_payload (sa ps) f = (_, refl, rw (decode_sa-encode_sa ps f))
decode_payload-encode_payload (ke p) f = (_, refl, rw (decode_ke-encode_ke p f))
decode_payload-encode_payload (nonce bs) f = (_, refl, refl)
decode_payload-encode_payload (identity p) f =
    (encode_id p, refl, identity_back p.id_type p.id_data p.is_initiator)
decode_payload-encode_payload (auth p) f = (_, refl, unfold encode_auth decode_auth in refl)
decode_payload-encode_payload (eap bs) f = (_, refl, refl)
decode_payload-encode_payload (notify p) f = (
  encode_notify p,
  refl,
  ap (λ t. decode_payload t (encode_notify p)) (notify_type_of p.override_type f.no_override)
      ∙ rw (decode_notify-encode_notify p f),
)
decode_payload-encode_payload (delete p) f = (_, refl, rw (decode_delete-encode_delete p f))
decode_payload-encode_payload (ts true xs) (h, f) =
    let (b, e, d) = decode_ts-encode_ts xs h f in (b, e, rw d)
decode_payload-encode_payload (ts false xs) (h, f) =
    let (b, e, d) = decode_ts-encode_ts xs h f in (b, e, rw d)
decode_payload-encode_payload (cp p) f = (_, refl, rw (decode_cp-encode_cp p f))
decode_payload-encode_payload (raw t bs) f = (bs, refl, ground arith)

wrap-Returns :
    {A : Type 0} (make : A → Payload) (r : Result Error A)
    → Returns r
    → Returns (r >>= λ a. ok (make a))
wrap-Returns make r h = >>=-Returns r (λ a. ok (make a)) h (λ a. tt)

pub decode_payload-Returns : (t : ℕ) (body : Bytes) → Returns (decode_payload t body)
unfolding decode_payload decode_id decode_auth decode_ke decode_notify decode_delete
decode_payload-Returns t body = ground (
  arith,
  wrap-Returns sa (decode_sa body) (decode_sa-Returns body),
  wrap-Returns (ts true) (decode_ts body) (decode_ts-Returns body),
  wrap-Returns (ts false) (decode_ts body) (decode_ts-Returns body),
  wrap-Returns cp (decode_cp body) (decode_cp-Returns body),
)
