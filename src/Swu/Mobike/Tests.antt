-- ===== src/Swu/Mobike/Tests.antt =====
-- mobike.go: runs, and a theorem at a concrete input.
use swu_go.Prelude.{ℕ, ◌≡◌, refl, true, Option, none, some, List, [], ◌∷◌, err}
use swu_go.Prelude.Bytes.{Bytes}
use swu_go.Ikev2.Payload.{Payload}
use swu_go.Swu.Session.{Session}
use swu_go.Swu.Message.Tests.{toy}
use swu_go.Swu.Mobike.{
  Mobile, not_bound, verify_cookie2_response, send_mobike_update, update_addresses,
}
use swu_go.Swu.Mobike.Changed.{StaysPut, update_addresses-StaysPut}

abbrev mobile : Mobile ℕ
mobile = record {
  session = toy;
  mobike_supported = true;
  ep_dg_addr = 1 ∷ [];
  ep_dg_port = 0;
  local_port = 500;
  socket = some 7;
  started = 7 ∷ [];
  stopped = [];
}

-- The gateway answers with nothing.
abbrev silent : Session → List Payload → Session × Option Bytes
silent s ps = (s, some [])

abbrev unbound : Bytes → ℕ → Bytes → ℕ → Option ℕ
unbound local_addr local_port remote_addr remote_port = none

abbrev bound : Bytes → ℕ → Bytes → ℕ → Option ℕ
bound local_addr local_port remote_addr remote_port = some remote_port

moved : (update_addresses silent bound mobile (9 ∷ []) [] (2 ∷ []) (3 ∷ [])).0.socket ≡ some 4500
unfolding update_addresses send_mobike_update verify_cookie2_response
moved = refl

-- The address of the gateway is the new one, and the socket the old one.
half_moved :
    (update_addresses silent unbound mobile (9 ∷ []) [] (2 ∷ []) (3 ∷ [])).0.ep_dg_addr ≡ 3 ∷ []
unfolding update_addresses send_mobike_update verify_cookie2_response
half_moved = refl

not_moved : (update_addresses silent unbound mobile (9 ∷ []) [] (2 ∷ []) (3 ∷ [])).1 ≡ err not_bound
unfolding update_addresses send_mobike_update verify_cookie2_response
not_moved = refl

update_addresses-StaysPut_example :
    StaysPut mobile (update_addresses silent unbound mobile (9 ∷ []) [] (2 ∷ []) (3 ∷ [])) not_bound
update_addresses-StaysPut_example =
    update_addresses-StaysPut silent unbound mobile (9 ∷ []) [] (2 ∷ []) (3 ∷ []) not_bound
      not_moved
