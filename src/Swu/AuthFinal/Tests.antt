-- ===== src/Swu/AuthFinal/Tests.antt =====
-- handleIKEAuthFinalResp: the theorems at concrete inputs, with toy algorithms.
use swu_go.Prelude.{◌≡◌, refl, false, none, some, List, [], ◌∷◌, ◌++◌, err}
use swu_go.Ikev2.Types.{header_too_short}
use swu_go.Ikev2.Body.{Auth}
use swu_go.Ikev2.Payload.{Payload, sa, auth, notify}
use swu_go.Swu.Error.{ikev2}
use swu_go.Swu.Message.{decrypt_and_parse}
use swu_go.Swu.Message.Tests.{toy, no_header}
use swu_go.Swu.Rekey.Tests.{toy_algorithms, tunnel, chosen}
use swu_go.Swu.AuthFinal.{
  AuthState, AuthFound, no_message, no_payloads, mobike_supported, handle_auth_payloads,
  handle_ike_auth_final_resp,
}
use swu_go.Swu.AuthFinal.Kept.{
  IsKeptBut, handle_auth_payloads-without_auth, handle_ike_auth_final_resp-Kept,
}

abbrev waiting : AuthState
waiting = record {
  tunnel = tunnel;
  ni = 1 ∷ [];
  nr = 5 ∷ 6 ∷ [];
  child_spi = 90;
  child_dh = none;
  child_esn = false;
  child_encr_id = 0;
  child_integ_id = 0;
  child_encr_key_len_bits = 0;
  tsi = [];
  cp_config = none;
  lifetime = 0;
  mobike = false;
  resume_ticket = [];
  resume_old_skd = [];
  on_ticket_update = false;
  ticket_updates = [];
}

abbrev payloads : List Payload
payloads =
    notify (record {
      protocol_id = 0;
      spi = [];
      notify_type = mobike_supported;
      notify_data = [];
      override_type = 0;
    })
    ∷ sa (chosen ∷ [])
    ∷ []

abbrev found : AuthFound
found = record no_payloads { sa_payload = some (chosen ∷ []) }

abbrev forged : Auth
forged = record { auth_method = 2; auth_data = 0 ∷ 0 ∷ [] }

handle_auth_payloads-without_auth_example :
    handle_auth_payloads toy_algorithms waiting (payloads ++ (auth forged ∷ []))
    ≡ handle_auth_payloads toy_algorithms waiting (payloads ++ [])
handle_auth_payloads-without_auth_example =
    handle_auth_payloads-without_auth toy_algorithms waiting forged payloads []

-- A packet without a header.
no_answer :
    (handle_ike_auth_final_resp toy_algorithms waiting []).1
    ≡ err (no_message (ikev2 header_too_short))
unfolding handle_ike_auth_final_resp
no_answer = rw (no_header, handle_ike_auth_final_resp) refl

handle_ike_auth_final_resp-Kept_example :
    IsKeptBut
      (record waiting { tunnel = record tunnel { session = (decrypt_and_parse toy []).0 } })
      (handle_ike_auth_final_resp toy_algorithms waiting []).0
handle_ike_auth_final_resp-Kept_example =
    handle_ike_auth_final_resp-Kept toy_algorithms waiting [] (no_message (ikev2 header_too_short))
      no_answer
