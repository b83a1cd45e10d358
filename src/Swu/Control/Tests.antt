-- ===== src/Swu/Control/Tests.antt =====
-- ike_control.go: runs, and the theorems at concrete inputs.
use swu_go.Prelude.{
  ℕ, ◌≡◌, refl, true, false, if◌then◌else◌, List, [], ◌∷◌, ◌++◌, some, none, arith,
}
use swu_go.Prelude.Bytes.{be32}
use swu_go.Prelude.Map.{get}
use swu_go.Ikev2.Payload.{Payload, notify}
use swu_go.Swu.Message.Tests.{toy}
use swu_go.Swu.Control.{Control, handle_payloads, handle_notify, sync_message_id}
use swu_go.Swu.Control.Sequence.{StaysOrRises, handle_payloads-StaysOrRises}
use swu_go.Swu.Control.Deletes.{delete_of, among, spared, handle_payloads-delete_of}

abbrev busy : Control
busy = record {
  session = record toy { sequence_number = 5 };
  mobike_supported = false;
  xfrm_ready = false;
  child_sa_out = some 300;
  child_sa_in = some 400;
  child_sas_in = (400, 1) ∷ (401, 2) ∷ [];
  child_out_policies = some 300 ∷ [];
  on_redirect = false;
  on_session_down = true;
  cancel = true;
}

abbrev sync_to_nine : List Payload
sync_to_nine =
    notify (record {
      protocol_id = 0;
      spi = [];
      notify_type = 16422;
      notify_data = be32 0 ++ (be32 3 ++ be32 9);
      override_type = 0;
    })
    ∷ []

raised_to_nine : (handle_payloads sync_to_nine 3 busy sync_to_nine).0.session.sequence_number ≡ 9
unfolding handle_payloads handle_notify sync_message_id
raised_to_nine = refl

handle_payloads-StaysOrRises_example :
    StaysOrRises 5
      (handle_payloads sync_to_nine 3 busy sync_to_nine).0.session.sequence_number
      sync_to_nine
handle_payloads-StaysOrRises_example = handle_payloads-StaysOrRises sync_to_nine 3 busy sync_to_nine

abbrev listed : List ℕ
listed = 400 ∷ 300 ∷ []

handle_payloads-delete_of_example :
    let (c', effects, answer) =
      handle_payloads (delete_of listed ∷ []) 3 busy (delete_of listed ∷ []) in
    ((k : ℕ) → get k c'.child_sas_in ≡ (if among k listed then none else get k busy.child_sas_in))
    × (c'.child_sa_out ≡ spared listed (some 300))
    × (c'.child_sa_in ≡ some 400)
handle_payloads-delete_of_example =
    handle_payloads-delete_of 3 busy listed (omega arith, (omega arith, tt))
