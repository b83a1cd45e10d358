-- ===== src/Swu/Rekey.antt =====
-- pkg/swu/state_rekey.go: the answer to a CREATE_CHILD_SA request by which the tunnel gets new keys, with
-- sendDeleteChildSA of informational.go.
pub mod Suites
pub mod Keymat
pub mod Switch
pub mod Tests
use swu_go.Prelude.{
  ℕ, ◌+◌, ◌*◌, ◌%◌, ◌^◌, Bool, true, false, ◌||◌, not, Option, none, some, List, [], ◌∷◌, ◌++◌,
  Result, ok, err, panic, stuck, ◌>>=◌, ◌>>◌, fail_if, ltb, ◌==◌, if◌then◌else◌, shorter, length,
  slice_at,
}
use swu_go.Prelude.Bytes.{Bytes, be32, u32_at}
use swu_go.Prelude.Map.{put}
use swu_go.Prelude.Parse.{concat_map}
use swu_go.Ikev2.Types.{
  informational, proto_esp, transform_encr, transform_integ, attribute_key_length, encr_aes_gcm_8,
  encr_aes_gcm_12, encr_aes_gcm_16,
}
use swu_go.Ikev2.Body.{Notify, Delete}
use swu_go.Ikev2.Sa.{Attribute, Transform, Proposal}
use swu_go.Ikev2.Ts.{TrafficSelector}
use swu_go.Ikev2.Payload.{Payload, sa, nonce, notify, delete}
use swu_go.Crypto.{Encrypter, IntegrityAlgorithm}
use swu_go.Crypto.Choice.{Algorithms, get_encrypter_with_key_len, get_integrity_algorithm}
use swu_go.Crypto.Prf.{Prf, PrfError, prf_plus}
use swu_go.Ipsec.Esp.{SecurityAssociation, new_security_association, new_security_association_cbc}
use swu_go.Swu.Error.{SwuError}
use swu_go.Swu.Session.{Session}
use swu_go.Swu.Message.{decrypt_and_parse, encrypt_and_wrap}
use swu_go.Swu.Selector.{ChildOutPolicy}

pub data RekeyError : Type 0 where
  no_message : SwuError → RekeyError
  refused : ℕ → RekeyError
  missing_payloads : RekeyError
  no_encryption_chosen : RekeyError
  unsupported_encryption : RekeyError
  unsupported_integrity : RekeyError
  prf_failed : PrfError → RekeyError

-- A security association with its RemoteSPI.
pub record ChildSa : Type 0 where
  pub association : SecurityAssociation
  pub remote_spi : ℕ

-- The fields of a session that the tunnel uses, behind those that messages need; `none` is nil. The XFRM
-- manager, the capture of keys and the time of the last rekeying are left out.
pub record Tunnel : Type 0 where
  pub session : Session
  pub prf_alg : Prf
  pub child_sa_out : Option ChildSa
  pub child_sa_in : Option ChildSa
  pub child_sas_in : Option (List (ℕ × ChildSa))
  pub child_out_policies : List (ChildOutPolicy ChildSa)
  pub tsr : List (Option TrafficSelector)

-- What the loop over the payloads finds; the SPI and the numbers are 0 at first.
pub record Found : Type 0 where
  pub resp_sa : Bool
  pub resp_nonce : Option Bytes
  pub resp_spi : ℕ
  pub encr_id : ℕ
  pub integ_id : ℕ
  pub encr_key_len_bits : ℕ

abbrev pub nothing_found : Found
nothing_found = record {
  resp_sa = false;
  resp_nonce = none;
  resp_spi = 0;
  encr_id = 0;
  integ_id = 0;
  encr_key_len_bits = 0;
}

unfoldable pub find_key_length : ℕ → List Attribute → ℕ
find_key_length bits [] = bits
find_key_length bits (a ∷ as') =
    find_key_length (if a.attr_type == attribute_key_length then a.val else bits) as'

unfoldable pub find_transforms : Found → List Transform → Found
find_transforms f [] = f
find_transforms f (t ∷ ts) =
    find_transforms
      (if t.transform_type == transform_encr
        then record f {
          encr_id = t.id;
          encr_key_len_bits = find_key_length f.encr_key_len_bits t.attributes;
        }
        else if t.transform_type == transform_integ
        then record f { integ_id = t.id }
        else f)
      ts

-- The first proposal is taken.
unfoldable pub find_proposal : Found → List Proposal → Found
find_proposal f [] = record f { resp_sa = true }
find_proposal f (p ∷ ps) =
    find_transforms
      (record f {
        resp_sa = true;
        resp_spi = if shorter p.spi 4 then f.resp_spi else u32_at 0 p.spi;
      })
      p.transforms

unfoldable pub find_payload : Found → Payload → Result RekeyError Found
find_payload f (sa ps) = ok (find_proposal f ps)
find_payload f (nonce data') = ok (record f { resp_nonce = some data' })
find_payload f (notify n) = if ltb n.notify_type 16384 then err (refused n.notify_type) else ok f
find_payload f p = ok f

unfoldable pub find_payloads : Found → List Payload → Result RekeyError Found
find_payloads f [] = ok f
find_payloads f (p ∷ ps) = do f' ← find_payload f p; find_payloads f' ps

abbrev pub or_error : {A : Type 0} → RekeyError → Option A → Result RekeyError A
or_error e none = err e
or_error e (some a) = ok a

abbrev prf_result : Result PrfError Bytes → Result RekeyError Bytes
prf_result (ok b) = ok b
prf_result (err e) = err (prf_failed e)
prf_result panic = panic
prf_result stuck = stuck

abbrev pub is_aead : ℕ → Bool
is_aead id = id == encr_aes_gcm_16 || (id == encr_aes_gcm_12 || id == encr_aes_gcm_8)

-- Encryption and integrity, with the lengths of their keys; an AEAD has 4 bytes of salt, and no integrity.
pub record Suite : Type 0 where
  pub encrypter : Encrypter
  pub enc_len : ℕ
  pub integrity : Option IntegrityAlgorithm
  pub integ_len : ℕ

unfoldable pub choose_suite : Algorithms → Found → Result RekeyError Suite
choose_suite algs f = do
  (enc, size) ←
      or_error unsupported_encryption
        (get_encrypter_with_key_len algs f.encr_id f.encr_key_len_bits)
  (if is_aead f.encr_id
      then ok (record { encrypter = enc; enc_len = size + 4; integrity = none; integ_len = 0 })
      else (do
        (integ, integ_size) ←
            or_error unsupported_integrity (get_integrity_algorithm algs f.integ_id)
        ok (record {
          encrypter = enc;
          enc_len = size;
          integrity = some integ;
          integ_len = integ_size;
        })))

-- The four keys, one behind the other; without integrity its keys stay nil.
pub record ChildKeys : Type 0 where
  pub out_enc : Bytes
  pub out_integ : Bytes
  pub in_enc : Bytes
  pub in_integ : Bytes

unfoldable pub cut_keys : ℕ → ℕ → Bytes → ChildKeys
cut_keys enc_len integ_len key_mat =
    let a = enc_len in
    let b = a + integ_len in
    let c = b + enc_len in
    record {
      out_enc = slice_at 0 enc_len key_mat;
      out_integ = slice_at a integ_len key_mat;
      in_enc = slice_at b enc_len key_mat;
      in_integ = slice_at c integ_len key_mat;
    }

abbrev pub association_of : Suite → ℕ → Bytes → Bytes → SecurityAssociation
association_of u spi enc_key integ_key = elim u.integrity [
  | none ↦ new_security_association spi u.encrypter enc_key []
  | some integ ↦ new_security_association_cbc spi u.encrypter enc_key integ integ_key
]

abbrev pub sa_out_of : Suite → ChildKeys → ℕ → ℕ → ChildSa
sa_out_of u k resp_spi new_spi = record {
  association = association_of u resp_spi k.out_enc k.out_integ;
  remote_spi = new_spi;
}

abbrev pub sa_in_of : Suite → ChildKeys → ℕ → ℕ → ChildSa
sa_in_of u k resp_spi new_spi = record {
  association = association_of u new_spi k.in_enc k.in_integ;
  remote_spi = resp_spi;
}

-- The first policy gets the new association; without policies there is one for the selectors of the
-- gateway, if it has any.
abbrev pub update_policies :
    ChildSa
    → List (Option TrafficSelector)
    → List (ChildOutPolicy ChildSa)
    → List (ChildOutPolicy ChildSa)
update_policies new [] [] = []
update_policies new (t ∷ ts) [] = record { sa_out = some new; tsr = t ∷ ts } ∷ []
update_policies new tsr (pol ∷ policies) = record pol { sa_out = some new } ∷ policies

abbrev pub insert_sa : ℕ → ChildSa → Option (List (ℕ × ChildSa)) → Option (List (ℕ × ChildSa))
insert_sa spi new none = none
insert_sa spi new (some m) = some (put spi new m)

-- Both associations are replaced.
unfoldable pub switch : Tunnel → ℕ → ChildSa → ChildSa → Tunnel
switch c new_spi new_out new_in = record c {
  child_sa_out = some new_out;
  child_sa_in = some new_in;
  child_sas_in = insert_sa new_spi new_in c.child_sas_in;
  child_out_policies = update_policies new_out c.tsr c.child_out_policies;
}

-- The payload of sendDeleteChildSA.
abbrev pub delete_of_spis : List ℕ → Payload
delete_of_spis spis = delete (record {
  protocol_id = proto_esp;
  spi_size = 4;
  num_spis = length spis % 2 ^ 16;
  spis = concat_map be32 spis;
})

-- sendDeleteChildSA: the packet, if there is something to delete.
unfoldable pub send_delete_child_sa :
    Session → List ℕ → Option Bytes → Session × Result SwuError (Option Bytes)
send_delete_child_sa s [] random = (s, ok none)
send_delete_child_sa s (spi ∷ spis) random =
    let (s', r) =
      encrypt_and_wrap s (delete_of_spis (spi ∷ spis) ∷ []) informational false random in
    (s', r >>= λ packet. ok (some packet))

abbrev old_spis : Tunnel → Result RekeyError (ℕ × ℕ)
old_spis c = elim c.child_sa_out [
  | none ↦ panic
  | some out ↦ elim c.child_sa_in [
    | none ↦ panic
    | some in' ↦ ok (out.association.spi, in'.association.spi)
  ]
]

-- The part behind the loop over the payloads: the new associations and the SPI of the old outbound one.
pub new_associations :
    Algorithms → Tunnel → Bytes → ℕ → Found → Result RekeyError (ChildSa × ChildSa × ℕ)
new_associations algs c ni_nonce new_spi f = do
  resp_nonce ← or_error missing_payloads (if f.resp_sa then f.resp_nonce else none)
  fail_if (f.encr_id == 0) no_encryption_chosen
  u ← choose_suite algs f
  let total = 2 * (u.enc_len + u.integ_len)
  key_mat ← prf_result (prf_plus c.prf_alg c.session.keys.sk_d (ni_nonce ++ resp_nonce) total)
  let k = cut_keys u.enc_len u.integ_len key_mat
  (old_out, old_in) ← old_spis c
  ok (sa_out_of u k f.resp_spi new_spi, sa_in_of u k f.resp_spi new_spi, old_out)

-- The packet with the Delete, whose failure is only logged.
abbrev pub report :
    Tunnel → Result SwuError (Option Bytes) → Tunnel × Result RekeyError (Option Bytes)
report c (ok packet) = (c, ok packet)
report c (err e) = (c, ok none)
report c panic = (c, panic)
report c stuck = (c, stuck)

pub finish_rekey :
    Tunnel → ℕ → Option Bytes → ChildSa × ChildSa × ℕ → Tunnel × Result RekeyError (Option Bytes)
finish_rekey c new_spi random (new_out, new_in, old_out) =
    let c' = switch c new_spi new_out new_in in
    let (s, r) = send_delete_child_sa c'.session (old_out ∷ []) random in
    report (record c' { session = s }) r

pub handle_payloads_of_rekey :
    Algorithms
    → Tunnel
    → Bytes
    → ℕ
    → Option Bytes
    → List Payload
    → Tunnel × Result RekeyError (Option Bytes)
handle_payloads_of_rekey algs c ni_nonce new_spi random payloads =
    elim (find_payloads nothing_found payloads >>= new_associations algs c ni_nonce new_spi) [
      | ok new ↦ finish_rekey c new_spi random new
      | err e ↦ (c, err e)
      | panic ↦ (c, panic)
      | stuck ↦ (c, stuck)
    ]

-- handleCreateChildSAResp
pub handle_create_child_sa_resp :
    Algorithms
    → Tunnel
    → Bytes
    → Bytes
    → ℕ
    → Option Bytes
    → Tunnel × Result RekeyError (Option Bytes)
handle_create_child_sa_resp algs c packet ni_nonce new_spi random =
    let (s, r) = decrypt_and_parse c.session packet in
    let c' = record c { session = s } in
    elim r [
      | ok (id, payloads) ↦ handle_payloads_of_rekey algs c' ni_nonce new_spi random payloads
      | err e ↦ (c', err (no_message e))
      | panic ↦ (c', panic)
      | stuck ↦ (c', stuck)
    ]
