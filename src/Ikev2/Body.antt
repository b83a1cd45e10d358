-- ===== src/Ikev2/Body.antt =====
-- The payload bodies with no inner list: payload_ke_nonce.go, payload_id.go, payload_auth.go,
-- payload_notify.go and payload_delete.go. (A nonce and an EAP message are their bytes.)
use swu_go.Prelude.{
  ℕ, ◌+◌, ◌*◌, ◌%◌, ◌^◌, ◌<◌, ◌≡◌, sym, Bool, ◌∷◌, ◌++◌, Result, ok, err, if◌then◌else◌, shorter,
  need, shorter-false, length, length-append, drop, slice_at, take-append_eq, drop-append_eq,
  take_all, arith,
}
use swu_go.Prelude.Bytes.{Bytes, byte_at, be16, u16_at, u16-be16}
use swu_go.Ikev2.Types.{
  Error, ke_too_short, id_too_short, auth_too_short, notify_too_short, notify_no_spi,
  delete_too_short, delete_no_spis,
}

-- EncryptedPayloadKE
pub record Ke : Type 0 where
  pub dh_group : ℕ
  pub ke_data : Bytes

unfoldable pub encode_ke : Ke → Bytes
encode_ke p = be16 p.dh_group ++ (0 ∷ 0 ∷ p.ke_data)

unfoldable pub decode_ke : Bytes → Result Error Ke
decode_ke buf =
    if shorter buf 4
    then err ke_too_short
    else need 4 buf (ok (record { dh_group = u16_at 0 buf; ke_data = drop 4 buf }))

pub decode_ke-encode_ke : (p : Ke) → p.dh_group < 2 ^ 16 → decode_ke (encode_ke p) ≡ ok p
unfolding decode_ke encode_ke
decode_ke-encode_ke p h =
    λ i. ok (record { dh_group = u16-be16 p.dh_group h i; ke_data = p.ke_data })

-- EncryptedPayloadID
pub record Identity : Type 0 where
  pub id_type : ℕ
  pub id_data : Bytes
  pub is_initiator : Bool

unfoldable pub encode_id : Identity → Bytes
encode_id p = p.id_type ∷ 0 ∷ 0 ∷ 0 ∷ p.id_data

unfoldable pub decode_id : Bytes → Bool → Result Error Identity
decode_id buf is_initiator =
    if shorter buf 4
    then err id_too_short
    else need 4 buf
        (ok (record { id_type = byte_at 0 buf; id_data = drop 4 buf; is_initiator = is_initiator }))

-- EncryptedPayloadAuth
pub record Auth : Type 0 where
  pub auth_method : ℕ
  pub auth_data : Bytes

unfoldable pub encode_auth : Auth → Bytes
encode_auth p = p.auth_method ∷ 0 ∷ 0 ∷ 0 ∷ p.auth_data

unfoldable pub decode_auth : Bytes → Result Error Auth
decode_auth buf =
    if shorter buf 4
    then err auth_too_short
    else need 4 buf (ok (record { auth_method = byte_at 0 buf; auth_data = drop 4 buf }))

-- EncryptedPayloadNotify. The override is a payload type, and 0 stands for none.
pub record Notify : Type 0 where
  pub protocol_id : ℕ
  pub spi : Bytes
  pub notify_type : ℕ
  pub notify_data : Bytes
  pub override_type : ℕ

unfoldable pub encode_notify : Notify → Bytes
encode_notify p =
    p.protocol_id ∷ (length p.spi % 256) ∷ (be16 p.notify_type ++ (p.spi ++ p.notify_data))

unfoldable pub decode_notify : Bytes → Result Error Notify
decode_notify buf =
    if shorter buf 4
    then err notify_too_short
    else need 4 buf (
        let spi_len = byte_at 1 buf in
        if shorter buf (4 + spi_len)
        then err notify_no_spi
        else need (4 + spi_len) buf (
            ok (record {
              protocol_id = byte_at 0 buf;
              spi = slice_at 4 spi_len buf;
              notify_type = u16_at 2 buf;
              notify_data = drop spi_len (drop 4 buf);
              override_type = 0;
            })))

pub record FitsNotify (p : Notify) : Type 0 where
  pub spi : length p.spi < 256
  pub notify_type : p.notify_type < 2 ^ 16
  pub no_override : p.override_type ≡ 0

pub decode_notify-encode_notify :
    (p : Notify) → FitsNotify p → decode_notify (encode_notify p) ≡ ok p
unfolding decode_notify encode_notify
decode_notify-encode_notify p f =
    let e : length p.spi % 256 ≡ length p.spi = omega arith in
    rw e (
      rw
        (shorter-false
          (p.protocol_id ∷ length p.spi ∷ (be16 p.notify_type ++ (p.spi ++ p.notify_data)))
          (4 + length p.spi) (omega (arith, length-append p.spi p.notify_data)))
        (λ i. ok (record {
          protocol_id = p.protocol_id;
          spi = take-append_eq (length p.spi) p.spi p.notify_data (omega arith) i;
          notify_type = u16-be16 p.notify_type f.notify_type i;
          notify_data = drop-append_eq (length p.spi) p.spi p.notify_data (omega arith) i;
          override_type = sym f.no_override i;
        })))

-- EncryptedPayloadDelete
pub record Delete : Type 0 where
  pub protocol_id : ℕ
  pub spi_size : ℕ
  pub num_spis : ℕ
  pub spis : Bytes

unfoldable pub encode_delete : Delete → Bytes
encode_delete p = p.protocol_id ∷ p.spi_size ∷ (be16 p.num_spis ++ p.spis)

unfoldable pub decode_delete : Bytes → Result Error Delete
decode_delete buf =
    if shorter buf 4
    then err delete_too_short
    else need 4 buf (
        let n = byte_at 1 buf * u16_at 2 buf in
        if shorter buf (4 + n)
        then err delete_no_spis
        else need (4 + n) buf (
            ok (record {
              protocol_id = byte_at 0 buf;
              spi_size = byte_at 1 buf;
              num_spis = u16_at 2 buf;
              spis = slice_at 4 n buf;
            })))

pub record FitsDelete (p : Delete) : Type 0 where
  pub num_spis : p.num_spis < 2 ^ 16
  pub spis : length p.spis ≡ p.spi_size * p.num_spis

pub decode_delete-encode_delete :
    (p : Delete) → FitsDelete p → decode_delete (encode_delete p) ≡ ok p
unfolding decode_delete encode_delete
decode_delete-encode_delete p f =
    let e : u16_at 0 (be16 p.num_spis) ≡ p.num_spis = u16-be16 p.num_spis f.num_spis in
    rw (e, ← f.spis)
      (rw
        (shorter-false (p.protocol_id ∷ p.spi_size ∷ (be16 p.num_spis ++ p.spis))
          (4 + length p.spis) (omega arith))
        (λ i. ok (record {
          protocol_id = p.protocol_id;
          spi_size = p.spi_size;
          num_spis = p.num_spis;
          spis = take_all (length p.spis) p.spis (omega arith) i;
        })))
