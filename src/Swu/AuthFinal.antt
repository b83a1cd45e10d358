-- ===== src/Swu/AuthFinal.antt =====
-- pkg/swu/state_auth.go, handleIKEAuthFinalResp: the response that ends IKE_AUTH and gives the tunnel its
-- first associations.
pub mod Established
pub mod Kept
mod Tests
use swu_go.Prelude.{
  ℕ, ◌+◌, ◌*◌, Bool, true, false, ◌&&◌, not, Option, none, some, List, [], ◌∷◌, ◌++◌, map, Result,
  ok, err, panic, stuck, ◌>>=◌, ◌>>◌, fail_if, ltb, ◌==◌, if◌then◌else◌, shorter,
}
use swu_go.Prelude.Bytes.{Bytes, u32_at}
use swu_go.Ikev2.Types.{transform_dh, transform_esn}
use swu_go.Ikev2.Body.{Ke, Notify}
use swu_go.Ikev2.Sa.{Transform, Proposal}
use swu_go.Ikev2.Ts.{TrafficSelector}
use swu_go.Ikev2.Cp.{Cp}
use swu_go.Ikev2.Cp.Config.{CpConfig, parse_cp_config}
use swu_go.Ikev2.Payload.{Payload, sa, ke, cp, ts, notify}
use swu_go.Crypto.Choice.{Algorithms}
use swu_go.Crypto.DiffieHellman.{DiffieHellman, compute_shared_secret, store_shared_secret}
use swu_go.Crypto.Prf.{Prf, PrfError, prf_plus}
use swu_go.Swu.Error.{SwuError}
use swu_go.Swu.Control.{redirect, parse_redirect_data}
use swu_go.Swu.Message.{decrypt_and_parse}
use swu_go.Swu.Rekey.{
  Tunnel, Found, nothing_found, find_transforms, RekeyError, Suite, choose_suite, ChildKeys,
  cut_keys, ChildSa, sa_out_of, sa_in_of, insert_sa,
}
use swu_go.Swu.Selector.{ChildOutPolicy}

abbrev pub auth_lifetime : ℕ
auth_lifetime = 16403

abbrev pub mobike_supported : ℕ
mobike_supported = 16396

abbrev pub ticket_opaque : ℕ
ticket_opaque = 16413

pub data AuthError : Type 0 where
  no_message : SwuError → AuthError
  refused : ℕ → AuthError
  redirected : ℕ × Bytes → AuthError
  no_child_sa : AuthError
  no_spi : AuthError
  no_encryption_chosen : AuthError
  unsupported : RekeyError → AuthError
  no_ke : AuthError
  dh_failed : AuthError
  prf_failed : PrfError → AuthError
  no_child_spi : AuthError

-- The fields of a session that the response reads or writes, and the calls of OnTicketUpdate so far, with
-- what they are called with. The capture of keys is left out.
pub record AuthState : Type 0 where
  pub tunnel : Tunnel
  pub ni : Bytes
  pub nr : Bytes
  pub child_spi : ℕ
  pub child_dh : Option DiffieHellman
  pub child_esn : Bool
  pub child_encr_id : ℕ
  pub child_integ_id : ℕ
  pub child_encr_key_len_bits : ℕ
  pub tsi : List (Option TrafficSelector)
  pub cp_config : Option CpConfig
  pub lifetime : ℕ
  pub mobike : Bool
  pub resume_ticket : Bytes
  pub resume_old_skd : Bytes
  pub on_ticket_update : Bool
  pub ticket_updates : List (Bytes × Bytes)

-- What the loop over the payloads keeps.
pub record AuthFound : Type 0 where
  pub sa_payload : Option (List Proposal)
  pub ke_payload : Option Ke
  pub cp_payload : Option Cp
  pub tsi_payload : Option (List TrafficSelector)
  pub tsr_payload : Option (List TrafficSelector)

abbrev pub no_payloads : AuthFound
no_payloads = record {
  sa_payload = none;
  ke_payload = none;
  cp_payload = none;
  tsi_payload = none;
  tsr_payload = none;
}

abbrev pub take_lifetime : AuthState → Notify → AuthState
take_lifetime s n =
    if n.notify_type == auth_lifetime && not (shorter n.notify_data 4)
    then record s { lifetime = u32_at 0 n.notify_data }
    else s

abbrev pub take_mobike : AuthState → Notify → AuthState
take_mobike s n = if n.notify_type == mobike_supported then record s { mobike = true } else s

-- The ticket, and SK_d for it if there is one.
abbrev pub take_ticket : AuthState → Notify → AuthState
take_ticket s n =
    let sk_d = s.tunnel.session.keys.sk_d in
    if n.notify_type == ticket_opaque && not (shorter n.notify_data 1)
    then (if shorter sk_d 1 then record s { resume_ticket = n.notify_data } else record s {
      resume_ticket = n.notify_data;
      resume_old_skd = sk_d;
      ticket_updates =
          if s.on_ticket_update
          then s.ticket_updates ++ ((n.notify_data, sk_d) ∷ [])
          else s.ticket_updates;
    })
    else s

-- A redirection that can be read ends the loop.
abbrev pub redirect_of : Notify → Option (ℕ × Bytes)
redirect_of n = if n.notify_type == redirect then parse_redirect_data n.notify_data else none

abbrev pub take_status : AuthState → Notify → Option (ℕ × Bytes) → AuthState × Option AuthError
take_status s n none = (take_ticket (take_mobike (take_lifetime s n) n) n, none)
take_status s n (some gateway) = (take_lifetime s n, some (redirected gateway))

unfoldable pub see_notify : AuthState → Notify → AuthState × Option AuthError
see_notify s n =
    if ltb n.notify_type 16384
    then (s, some (refused n.notify_type))
    else take_status s n (redirect_of n)

abbrev pub see_selectors : Bool → List TrafficSelector → AuthFound → AuthFound
see_selectors true xs f = record f { tsi_payload = some xs }
see_selectors false xs f = record f { tsr_payload = some xs }

unfoldable pub see_payload :
    AuthState → AuthFound → Payload → (AuthState × Option AuthError) × AuthFound
see_payload s f (sa ps) = ((s, none), record f { sa_payload = some ps })
see_payload s f (ke p) = ((s, none), record f { ke_payload = some p })
see_payload s f (cp p) = ((s, none), record f { cp_payload = some p })
see_payload s f (ts is_initiator xs) = ((s, none), see_selectors is_initiator xs f)
see_payload s f (notify n) = (see_notify s n, f)
see_payload s f p = ((s, none), f)

abbrev pub go_on :
    (AuthState × Option AuthError) × AuthFound
    → (AuthState → AuthFound → AuthState × Result AuthError AuthFound)
    → AuthState × Result AuthError AuthFound
go_on ((s, none), f) rest = rest s f
go_on ((s, some e), f) rest = (s, err e)

unfoldable pub see_payloads :
    AuthState → AuthFound → List Payload → AuthState × Result AuthError AuthFound
see_payloads s f [] = (s, ok f)
see_payloads s f (p ∷ ps) = go_on (see_payload s f p) (λ s' f'. see_payloads s' f' ps)

unfoldable pub proposal_of : Option (List Proposal) → Result AuthError Proposal
proposal_of none = err no_child_sa
proposal_of (some []) = err no_child_sa
proposal_of (some (p ∷ ps)) = if shorter p.spi 4 then err no_spi else ok p

unfoldable pub dh_of : ℕ → List Transform → ℕ
dh_of id [] = id
dh_of id (t ∷ more) = dh_of (if t.transform_type == transform_dh then t.id else id) more

unfoldable pub esn_of : Bool → List Transform → Bool
esn_of esn [] = esn
esn_of esn (t ∷ more) =
    esn_of (if t.transform_type == transform_esn && t.id == 1 then true else esn) more

abbrev pub secret_of : Option DiffieHellman → Option Ke → Result AuthError Bytes
secret_of none k = err no_ke
secret_of (some dh) none = err no_ke
secret_of (some dh) (some k) =
    if shorter k.ke_data 1 then err no_ke else elim (compute_shared_secret dh k.ke_data) [
      | none ↦ err dh_failed
      | some secret ↦ ok secret
    ]

-- Ni | Nr, and the secret behind them with perfect forward secrecy.
unfoldable pub seed_of : AuthState → AuthFound → ℕ → Result AuthError Bytes
seed_of s f dh_id =
    if dh_id == 0
    then ok (s.ni ++ s.nr)
    else (do secret ← secret_of s.child_dh f.ke_payload; ok ((s.ni ++ s.nr) ++ secret))

abbrev pub suite_result : Result RekeyError Suite → Result AuthError Suite
suite_result (ok u) = ok u
suite_result (err e) = err (unsupported e)
suite_result panic = panic
suite_result stuck = stuck

abbrev pub keymat_result : Result PrfError Bytes → Result AuthError Bytes
keymat_result (ok b) = ok b
keymat_result (err e) = err (prf_failed e)
keymat_result panic = panic
keymat_result stuck = stuck

-- The algorithms and the keys, up to the check of the own SPI.
unfoldable pub child_keys :
    Algorithms → AuthState → AuthFound → Proposal → Result AuthError (Suite × ChildKeys)
child_keys algs s f p = do
  let chosen = find_transforms nothing_found p.transforms
  fail_if (chosen.encr_id == 0) no_encryption_chosen
  u ← suite_result (choose_suite algs chosen)
  seed ← seed_of s f (dh_of 0 p.transforms)
  let total = 2 * (u.enc_len + u.integ_len)
  key_mat ← keymat_result (prf_plus s.tunnel.prf_alg s.tunnel.session.keys.sk_d seed total)
  fail_if (s.child_spi == 0) no_child_spi
  ok (u, cut_keys u.enc_len u.integ_len key_mat)

abbrev pub selectors_or :
    List (Option TrafficSelector) → Option (List TrafficSelector) → List (Option TrafficSelector)
selectors_or old none = old
selectors_or old (some xs) = map some xs

abbrev pub config_or : Option CpConfig → Option Cp → Option CpConfig
config_or old none = old
config_or old (some p) = some (parse_cp_config p)

abbrev pub add_policy :
    ChildSa
    → List (Option TrafficSelector)
    → List (ChildOutPolicy ChildSa)
    → List (ChildOutPolicy ChildSa)
add_policy out [] policies = policies
add_policy out (t ∷ tsr) policies = policies ++ (record { sa_out = some out; tsr = t ∷ tsr } ∷ [])

-- The assignments behind the last check.
unfoldable pub establish : AuthState → AuthFound → Proposal → Suite → ChildKeys → AuthState
establish s f p u k =
    let chosen = find_transforms nothing_found p.transforms in
    let remote_spi = u32_at 0 p.spi in
    let out = sa_out_of u k remote_spi s.child_spi in
    let in' = sa_in_of u k remote_spi s.child_spi in
    let tsr' = selectors_or s.tunnel.tsr f.tsr_payload in
    record s {
      tunnel = record s.tunnel {
        child_sa_out = some out;
        child_sa_in = some in';
        child_sas_in = insert_sa s.child_spi in' s.tunnel.child_sas_in;
        child_out_policies = add_policy out tsr' s.tunnel.child_out_policies;
        tsr = tsr';
      };
      child_encr_id = chosen.encr_id;
      child_integ_id = chosen.integ_id;
      child_encr_key_len_bits = chosen.encr_key_len_bits;
      cp_config = config_or s.cp_config f.cp_payload;
      tsi = selectors_or s.tsi f.tsi_payload;
    }

abbrev pub establish_result :
    AuthState
    → AuthFound
    → Proposal
    → Result AuthError (Suite × ChildKeys)
    → AuthState × Result AuthError Unit
establish_result s f p (ok (u, k)) = (establish s f p u k, ok tt)
establish_result s f p (err e) = (s, err e)
establish_result s f p panic = (s, panic)
establish_result s f p stuck = (s, stuck)

abbrev pub dh_after : Option DiffieHellman → Option Ke → Option DiffieHellman
dh_after none k = none
dh_after (some dh) none = some dh
dh_after (some dh) (some k) =
    some (if shorter k.ke_data 1 then dh else store_shared_secret dh k.ke_data)

-- The exchange that the response completes, which keeps its secret even if the response is refused later.
unfoldable pub dh_written : Algorithms → AuthState → AuthFound → Proposal → Option DiffieHellman
dh_written algs s f p =
    let chosen = find_transforms nothing_found p.transforms in
    elim (fail_if (chosen.encr_id == 0) no_encryption_chosen
      >> suite_result (choose_suite algs chosen)) [
        | ok u ↦ if dh_of 0 p.transforms == 0 then s.child_dh else dh_after s.child_dh f.ke_payload
        | err e ↦ s.child_dh
        | panic ↦ s.child_dh
        | stuck ↦ s.child_dh
      ]

-- ESN is noted before the algorithms are looked up.
unfoldable pub take_proposal :
    Algorithms
    → AuthState
    → AuthFound
    → Result AuthError Proposal
    → AuthState × Result AuthError Unit
take_proposal algs s f (ok p) =
    let s' = record s { child_esn = esn_of s.child_esn p.transforms } in
    establish_result (record s' { child_dh = dh_written algs s' f p }) f p (child_keys algs s' f p)
take_proposal algs s f (err e) = (s, err e)
take_proposal algs s f panic = (s, panic)
take_proposal algs s f stuck = (s, stuck)

abbrev pub take_found :
    Algorithms → AuthState × Result AuthError AuthFound → AuthState × Result AuthError Unit
take_found algs (s, ok f) = take_proposal algs s f (proposal_of f.sa_payload)
take_found algs (s, err e) = (s, err e)
take_found algs (s, panic) = (s, panic)
take_found algs (s, stuck) = (s, stuck)

unfoldable pub handle_auth_payloads :
    Algorithms → AuthState → List Payload → AuthState × Result AuthError Unit
handle_auth_payloads algs s payloads = take_found algs (see_payloads s no_payloads payloads)

abbrev pub take_message :
    Algorithms → AuthState → Result SwuError (ℕ × List Payload) → AuthState × Result AuthError Unit
take_message algs s (ok (id, payloads)) = handle_auth_payloads algs s payloads
take_message algs s (err e) = (s, err (no_message e))
take_message algs s panic = (s, panic)
take_message algs s stuck = (s, stuck)

-- handleIKEAuthFinalResp
unfoldable pub handle_ike_auth_final_resp :
    Algorithms → AuthState → Bytes → AuthState × Result AuthError Unit
handle_ike_auth_final_resp algs s packet =
    let (session', r) = decrypt_and_parse s.tunnel.session packet in
    take_message algs (record s { tunnel = record s.tunnel { session = session' } }) r
