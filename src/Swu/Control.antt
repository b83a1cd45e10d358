-- ===== src/Swu/Control.antt =====
-- pkg/swu/ike_control.go: the INFORMATIONAL requests of the gateway, with ParseRedirectData of
-- state_init.go.
pub mod Sequence
pub mod Deletes
mod Tests
use swu_go.Prelude.{
  ℕ, zero, suc, ◌+◌, ◌%◌, ◌*◌, ◌^◌, ◌&&◌, Bool, true, false, ◌||◌, not, Option, none, some, List,
  [], ◌∷◌, ◌++◌, map, Result, ok, err, panic, stuck, ◌>>=◌, ltb, ◌==◌, if◌then◌else◌, shorter,
  length, drop,
}
use swu_go.Prelude.Bytes.{Bytes, byte_at, be32, u32_at, word16}
use swu_go.Prelude.Map.{del}
use swu_go.Prelude.Parse.{concat_map}
use swu_go.Ikev2.Types.{informational, proto_ike, proto_esp}
use swu_go.Ikev2.Body.{Notify, Delete}
use swu_go.Ikev2.Payload.{Payload, notify, delete}
use swu_go.Swu.Error.{SwuError}
use swu_go.Swu.Session.{Session}
use swu_go.Swu.Message.{decrypt_and_parse, encrypt_and_wrap_with_msg_id}

abbrev pub update_sa_addresses : ℕ
update_sa_addresses = 16400

abbrev pub cookie2 : ℕ
cookie2 = 16401

abbrev pub redirect : ℕ
redirect = 16407

abbrev pub ikev2_message_id_sync : ℕ
ikev2_message_id_sync = 16422

-- The fields of a session that the handler uses, behind those that messages need. An association is
-- known by its SPI, a callback by whether it is set, and a policy by its association. `xfrm_ready` says that
-- there is an XFRM manager and a socket with both addresses.
pub record Control : Type 0 where
  pub session : Session
  pub mobike_supported : Bool
  pub xfrm_ready : Bool
  pub child_sa_out : Option ℕ
  pub child_sa_in : Option ℕ
  pub child_sas_in : List (ℕ × ℕ)
  pub child_out_policies : List (Option ℕ)
  pub on_redirect : Bool
  pub on_session_down : Bool
  pub cancel : Bool

-- What the handler calls: OnRedirect with the kind and the bytes of the gateway, OnSessionDown, the
-- session's cancel function, and the update of the addresses in the kernel.
pub data Effect : Type 0 where
  redirected : ℕ → Bytes → Effect
  session_down : Effect
  cancelled : Effect
  addresses_updated : Effect

-- ParseRedirectData, without the text of the address: 1 is IPv4, 2 is IPv6 and 3 a name.
unfoldable pub parse_redirect_data : Bytes → Option (ℕ × Bytes)
parse_redirect_data [] = none
parse_redirect_data (kind ∷ gateway) =
    if kind == 1
    then (if length gateway == 4 then some (kind, gateway) else none)
    else if kind == 2
    then (if length gateway == 16 then some (kind, gateway) else none)
    else if kind == 3
    then some (kind, gateway)
    else none

-- `if s.OnSessionDown != nil { ... } else if s.cancel != nil { ... }`
abbrev pub close_session : Control → List Effect
close_session c =
    if c.on_session_down then session_down ∷ [] else if c.cancel then cancelled ∷ [] else []

abbrev pub on_redirect_to : Control → Option (ℕ × Bytes) → List Effect
on_redirect_to c none = []
on_redirect_to c (some (kind, gateway)) =
    (if c.on_redirect then redirected kind gateway ∷ [] else []) ++ close_session c

-- The Notify payloads with COOKIE2 data, as they are sent back.
unfoldable pub cookies_of : List Payload → List Payload
cookies_of [] = []
cookies_of (notify n ∷ ps) =
    if (n.notify_type == cookie2) && not (shorter n.notify_data 1)
    then notify (record {
      protocol_id = 0;
      spi = [];
      notify_type = cookie2;
      notify_data = n.notify_data;
      override_type = 0;
    })
      ∷ cookies_of ps
    else cookies_of ps
cookies_of (p ∷ ps) = cookies_of ps

-- What one payload does: the loop goes on, or returns with the payloads of a response.
pub data Step : Type 0 where
  go_on : Control → List Effect → Step
  respond : Control → List Effect → List Payload → Step

-- IKEV2_MESSAGE_ID_SYNC with 12 bytes of data.
unfoldable pub sync_message_id : Control → ℕ → Bytes → Step
sync_message_id c msg_id data' =
    let now = c.session.sequence_number in
    let expected_recv = u32_at 8 data' in
    let next = if ltb now expected_recv then expected_recv else now in
    respond (record c { session = record c.session { sequence_number = next } }) []
      (notify (record {
        protocol_id = 0;
        spi = [];
        notify_type = ikev2_message_id_sync;
        notify_data = be32 next ++ be32 ((msg_id + 1) % 2 ^ 32);
        override_type = 0;
      })
        ∷ [])

unfoldable pub handle_notify : List Payload → ℕ → Control → Notify → Step
handle_notify payloads msg_id c n =
    if n.notify_type == ikev2_message_id_sync
    then (if shorter n.notify_data 12 then go_on c [] else sync_message_id c msg_id n.notify_data)
    else if n.notify_type == update_sa_addresses
    then (if c.mobike_supported
        then respond c (if c.xfrm_ready then addresses_updated ∷ [] else []) (cookies_of payloads)
        else go_on c [])
    else if n.notify_type == redirect
    then go_on c (on_redirect_to c (parse_redirect_data n.notify_data))
    else go_on c []

-- `for i := 0; i+4 <= len(del.SPIs); i += 4`
abbrev pub spis_of : Bytes → List ℕ
spis_of (a ∷ b ∷ c ∷ d ∷ rest) = (word16 a b * 2 ^ 16 + word16 c d) ∷ spis_of rest
spis_of rest = []

abbrev pub forget_first : List (Option ℕ) → List (Option ℕ)
forget_first [] = []
forget_first (pol ∷ policies) = none ∷ policies

-- One SPI of a Delete: the session after it, and the SPI to confirm.
unfoldable pub delete_spi : Control → ℕ → Control × List ℕ
delete_spi c spi =
    let confirmed : List ℕ = elim c.child_sa_out [
      | none ↦ []
      | some out ↦ elim c.child_sa_in [ none ↦ [] | some i ↦ if i == spi then out ∷ [] else [] ]
    ] in
    let c' = record c { child_sas_in = del spi c.child_sas_in } in
    (
      elim c.child_sa_out [
        | none ↦ c'
        | some out ↦
            if out == spi
            then record c' {
              child_sa_out = none;
              child_out_policies = forget_first c.child_out_policies;
            }
            else c'
      ],
      confirmed,
    )

unfoldable pub delete_spis : Control → List ℕ → Control × List ℕ
delete_spis c [] = (c, [])
delete_spis c (spi ∷ spis) =
    let (c', confirmed) = delete_spi c spi in
    let (c'', more) = delete_spis c' spis in (c'', confirmed ++ more)

abbrev pub confirm : Control × List ℕ → Step
confirm (c, []) = go_on c []
confirm (c, (spi ∷ spis)) = respond c [] (
    delete (record {
      protocol_id = proto_esp;
      spi_size = 4;
      num_spis = length (spi ∷ spis) % 2 ^ 16;
      spis = concat_map be32 (spi ∷ spis);
    })
    ∷ [])

unfoldable pub handle_delete : Control → Delete → Step
handle_delete c d =
    if d.protocol_id == proto_ike
    then go_on c (close_session c)
    else if not (d.protocol_id == proto_esp) || not (d.spi_size == 4)
    then go_on c []
    else confirm (delete_spis c (spis_of d.spis))

abbrev pub handle_payload : List Payload → ℕ → Control → Payload → Step
handle_payload payloads msg_id c (notify n) = handle_notify payloads msg_id c n
handle_payload payloads msg_id c (delete d) = handle_delete c d
handle_payload payloads msg_id c p = go_on c []

abbrev pub after_step :
    Step → (Control → Control × List Effect × List Payload) → Control × List Effect × List Payload
after_step (respond c effects answer) rest = (c, effects, answer)
after_step (go_on c effects) rest = let (c', more, answer) = rest c in (c', effects ++ more, answer)

-- The loop over the payloads: the session, the calls, and the payloads of the response, which are none
-- if the loop ends.
unfoldable pub handle_payloads :
    List Payload → ℕ → Control → List Payload → Control × List Effect × List Payload
handle_payloads payloads msg_id c [] = (c, [], [])
handle_payloads payloads msg_id c (p ∷ ps) =
    after_step (handle_payload payloads msg_id c p) (λ c'. handle_payloads payloads msg_id c' ps)

-- handleIncomingInformational: the last result is the packet that is sent. A message without payloads
-- asks whether the session is alive.
pub handle_incoming_informational :
    Control → Bytes → Option Bytes → Control × List Effect × Result SwuError Bytes
handle_incoming_informational c packet random =
    let (s, r) = decrypt_and_parse c.session packet in
    let c' = record c { session = s } in
    elim r [
      | err e ↦ (c', [], err e)
      | panic ↦ (c', [], panic)
      | stuck ↦ (c', [], stuck)
      | ok (msg_id, payloads) ↦
          let (c'', effects, answer) = handle_payloads payloads msg_id c' payloads in
          (
            c'',
            effects,
            encrypt_and_wrap_with_msg_id c''.session answer informational msg_id true random,
          )
    ]
