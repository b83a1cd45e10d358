-- ===== src/Swu/AuthFinal/Kept.antt =====
-- handleIKEAuthFinalResp: what it does not look at, and what a refused response leaves.
use swu_go.Prelude.{
  ℕ, ◌≡◌, refl, ap, ◌∙◌, Bool, true, false, Option, none, some, List, [], ◌∷◌, ◌++◌, Result, ok,
  err, panic, stuck, ltb, if◌then◌else◌,
}
use swu_go.Prelude.Bytes.{Bytes}
use swu_go.Ikev2.Body.{Auth, Notify}
use swu_go.Ikev2.Sa.{Proposal}
use swu_go.Ikev2.Ts.{TrafficSelector}
use swu_go.Ikev2.Cp.Config.{CpConfig}
use swu_go.Ikev2.Payload.{Payload, sa, ke, nonce, identity, auth, eap, notify, delete, ts, cp, raw}
use swu_go.Crypto.Choice.{Algorithms}
use swu_go.Crypto.DiffieHellman.{DiffieHellman}
use swu_go.Swu.Error.{SwuError}
use swu_go.Swu.Message.{decrypt_and_parse}
use swu_go.Swu.Rekey.{Tunnel, Suite, ChildKeys}
use swu_go.Swu.AuthFinal.{
  AuthState, AuthError, AuthFound, no_payloads, take_lifetime, take_mobike, take_ticket,
  redirect_of, refused, take_status, see_notify, see_payload, see_payloads, go_on, establish_result,
  child_keys, dh_written, esn_of, take_proposal, take_found, take_message, handle_auth_payloads,
  handle_ike_auth_final_resp,
}

go_on-same :
    (q : (AuthState × Option AuthError) × AuthFound)
    (f g : AuthState → AuthFound → AuthState × Result AuthError AuthFound)
    → ((s : AuthState) (x : AuthFound) → f s x ≡ g s x)
    → go_on q f ≡ go_on q g
go_on-same ((s, none), x) f g h = h s x
go_on-same ((s, some e), x) f g h = refl

see_payloads-without_auth :
    (a : Auth) (xs ys : List Payload) (s : AuthState) (f : AuthFound)
    → see_payloads s f (xs ++ (auth a ∷ ys)) ≡ see_payloads s f (xs ++ ys)
unfolding see_payloads see_payload
see_payloads-without_auth a [] ys s f = refl
see_payloads-without_auth a (x ∷ xs) ys s f =
    go_on-same (see_payload s f x) _ _ (λ s' f'. see_payloads-without_auth a xs ys s' f')

-- The AUTH payload of the gateway has no say: with it at any place of the response, whatever is in it, the
-- session and the result are those of the response without it.
pub handle_auth_payloads-without_auth :
    (algs : Algorithms) (s : AuthState) (a : Auth) (xs ys : List Payload)
    → handle_auth_payloads algs s (xs ++ (auth a ∷ ys)) ≡ handle_auth_payloads algs s (xs ++ ys)
unfolding handle_auth_payloads
handle_auth_payloads-without_auth algs s a xs ys =
    ap (take_found algs) (see_payloads-without_auth a xs ys s no_payloads)

-- What makes the tunnel: all of the state but ESN, the lifetime, MOBIKE and the ticket.
pub record Core : Type 0 where
  pub tunnel : Tunnel
  pub ni : Bytes
  pub nr : Bytes
  pub child_spi : ℕ
  pub child_dh : Option DiffieHellman
  pub encr_id : ℕ
  pub integ_id : ℕ
  pub key_len_bits : ℕ
  pub tsi : List (Option TrafficSelector)
  pub cp_config : Option CpConfig
  pub on_ticket_update : Bool

abbrev pub core : AuthState → Core
core s = record {
  tunnel = s.tunnel;
  ni = s.ni;
  nr = s.nr;
  child_spi = s.child_spi;
  child_dh = s.child_dh;
  encr_id = s.child_encr_id;
  integ_id = s.child_integ_id;
  key_len_bits = s.child_encr_key_len_bits;
  tsi = s.tsi;
  cp_config = s.cp_config;
  on_ticket_update = s.on_ticket_update;
}

core-if :
    (b : Bool) (s t u : AuthState)
    → core s ≡ core u
    → core t ≡ core u
    → core (if b then s else t) ≡ core u
core-if true s t u h k = h
core-if false s t u h k = k

core-take_lifetime : (s : AuthState) (n : Notify) → core (take_lifetime s n) ≡ core s
core-take_lifetime s n = core-if _ _ s s refl refl

core-take_mobike : (s : AuthState) (n : Notify) → core (take_mobike s n) ≡ core s
core-take_mobike s n = core-if _ _ s s refl refl

core-take_ticket : (s : AuthState) (n : Notify) → core (take_ticket s n) ≡ core s
core-take_ticket s n = core-if _ _ s s (core-if _ _ _ s refl refl) refl

core-take_status :
    (s : AuthState) (n : Notify) (o : Option (ℕ × Bytes)) → core (take_status s n o).0 ≡ core s
core-take_status s n none = core-take_ticket _ n ∙ core-take_mobike _ n ∙ core-take_lifetime s n
core-take_status s n (some gateway) = core-take_lifetime s n

core-see_notify : (s : AuthState) (n : Notify) → core (see_notify s n).0 ≡ core s
unfolding see_notify
core-see_notify s n = by_type (ltb n.notify_type 16384)
  where
    by_type :
        (b : Bool)
        → core
            (if◌then◌else◌ {A = AuthState × Option AuthError} b
              (s, some (refused n.notify_type))
              (take_status s n (redirect_of n))).0
          ≡ core s
    by_type true = refl
    by_type false = core-take_status s n (redirect_of n)

core-see_payload :
    (s : AuthState) (f : AuthFound) (p : Payload) → core (see_payload s f p).0.0 ≡ core s
unfolding see_payload
core-see_payload s f (notify n) = core-see_notify s n
core-see_payload s f (sa ps) = refl
core-see_payload s f (ke p) = refl
core-see_payload s f (nonce bs) = refl
core-see_payload s f (identity p) = refl
core-see_payload s f (auth p) = refl
core-see_payload s f (eap bs) = refl
core-see_payload s f (delete p) = refl
core-see_payload s f (ts is_initiator xs) = refl
core-see_payload s f (cp p) = refl
core-see_payload s f (raw t bs) = refl

core-go_on :
    (c : Core) (q : (AuthState × Option AuthError) × AuthFound)
    (rest : AuthState → AuthFound → AuthState × Result AuthError AuthFound)
    → core q.0.0 ≡ c
    → ((s : AuthState) (f : AuthFound) → core (rest s f).0 ≡ core s)
    → core (go_on q rest).0 ≡ c
core-go_on c ((s, none), f) rest h same = same s f ∙ h
core-go_on c ((s, some e), f) rest h same = h

pub core-see_payloads :
    (ps : List Payload) (s : AuthState) (f : AuthFound) → core (see_payloads s f ps).0 ≡ core s
unfolding see_payloads
core-see_payloads [] s f = refl
core-see_payloads (p ∷ ps) s f =
    core-go_on (core s) (see_payload s f p) (λ s' f'. see_payloads s' f' ps)
      (core-see_payload s f p) (λ s' f'. core-see_payloads ps s' f')

-- A state that is changed at most in what a refused response may change: ESN, the exchange that it may
-- complete, the lifetime, MOBIKE and the ticket.
abbrev pub IsKeptBut : AuthState → AuthState → Type 0
IsKeptBut s r = r ≡ record s {
  child_esn = r.child_esn;
  child_dh = r.child_dh;
  lifetime = r.lifetime;
  mobike = r.mobike;
  resume_ticket = r.resume_ticket;
  resume_old_skd = r.resume_old_skd;
  ticket_updates = r.ticket_updates;
}

-- The state that has the core `c`, and the rest of `r`.
abbrev with_core : Core → AuthState → AuthState
with_core c r = record r {
  tunnel = c.tunnel;
  ni = c.ni;
  nr = c.nr;
  child_spi = c.child_spi;
  child_encr_id = c.encr_id;
  child_integ_id = c.integ_id;
  child_encr_key_len_bits = c.key_len_bits;
  tsi = c.tsi;
  cp_config = c.cp_config;
  on_ticket_update = c.on_ticket_update;
}

same_core-IsKeptBut : (s r : AuthState) → core r ≡ core s → IsKeptBut s r
same_core-IsKeptBut s r h = ap (λ c. with_core c r) h

-- An error keeps it.
abbrev Kept : AuthState → AuthState × Result AuthError Unit → AuthError → Type 0
Kept s p e = p.1 ≡ err e → IsKeptBut s p.0

take_proposal-Kept :
    (algs : Algorithms) (s t : AuthState) (f : AuthFound) (r : Result AuthError Proposal)
    (e : AuthError)
    → core t ≡ core s
    → Kept s (take_proposal algs t f r) e
unfolding take_proposal
take_proposal-Kept algs s t f (ok p) e same = kept (child_keys algs t' f p)
  where
    t' : AuthState
    t' = record t { child_esn = esn_of t.child_esn p.transforms }

    kept :
        (r : Result AuthError (Suite × ChildKeys))
        → Kept s (establish_result (record t' { child_dh = dh_written algs t' f p }) f p r) e
    kept (ok (u, k)) h = cc
    kept (err x) h = ap (λ c. with_core c (record t' { child_dh = dh_written algs t' f p })) same
    kept panic h = cc
    kept stuck h = cc
take_proposal-Kept algs s t f (err x) e same = λ h. same_core-IsKeptBut s t same
take_proposal-Kept algs s t f panic e same = λ h. same_core-IsKeptBut s t same
take_proposal-Kept algs s t f stuck e same = λ h. same_core-IsKeptBut s t same

take_found-Kept :
    (algs : Algorithms) (s : AuthState) (q : AuthState × Result AuthError AuthFound) (e : AuthError)
    → core q.0 ≡ core s
    → Kept s (take_found algs q) e
take_found-Kept algs s (t, ok f) e same h = take_proposal-Kept algs s t f _ e same h
take_found-Kept algs s (t, err x) e same h = same_core-IsKeptBut s t same
take_found-Kept algs s (t, panic) e same h = same_core-IsKeptBut s t same
take_found-Kept algs s (t, stuck) e same h = same_core-IsKeptBut s t same

take_message-Kept :
    (algs : Algorithms) (s : AuthState) (r : Result SwuError (ℕ × List Payload)) (e : AuthError)
    → Kept s (take_message algs s r) e
unfolding handle_auth_payloads
take_message-Kept algs s (ok (id, ps)) e h =
    take_found-Kept algs s (see_payloads s no_payloads ps) e (core-see_payloads ps s no_payloads) h
take_message-Kept algs s (err x) e h = refl
take_message-Kept algs s panic e h = refl
take_message-Kept algs s stuck e h = refl

-- If the response is refused, whatever it was, the session's state is the one that the decryption leaves, but
-- for ESN, the Diffie-Hellman exchange of the tunnel, AUTH_LIFETIME, MOBIKE and the ticket with the key and
-- the calls for it. So the associations, the policies, the selectors, the addresses and the numbers of the
-- algorithms are as they were.
pub handle_ike_auth_final_resp-Kept :
    (algs : Algorithms) (s : AuthState) (packet : Bytes) (e : AuthError)
    → (handle_ike_auth_final_resp algs s packet).1 ≡ err e
    → IsKeptBut
        (record s {
          tunnel = record s.tunnel { session = (decrypt_and_parse s.tunnel.session packet).0 };
        })
        (handle_ike_auth_final_resp algs s packet).0
unfolding handle_ike_auth_final_resp
handle_ike_auth_final_resp-Kept algs s packet e h =
    let (session', r) = decrypt_and_parse s.tunnel.session packet in
    take_message-Kept algs (record s { tunnel = record s.tunnel { session = session' } }) r e h
