-- ===== src/Ipsec/Socket/Tests.antt =====
-- socket.go: the theorems at concrete inputs.
use swu_go.Prelude.{◌≡◌, refl, true, [], ◌∷◌, ◌++◌, replicate, arith}
use swu_go.Prelude.Bytes.{Bytes}
use swu_go.Ipsec.Socket.{Remote, to_ike, to_esp, looks_like_ike, demultiplex, send_ike}
use swu_go.Ipsec.Socket.Demultiplex.{HasIkeForm, demultiplex-send_ike, demultiplex-looks_like_ike}

abbrev at_4500 : Remote
at_4500 = record {
  remote_ips = [];
  remote_ip = 10 ∷ 0 ∷ 0 ∷ 1 ∷ [];
  remote_port = 4500;
  remote_idx = 0;
}

abbrev a_message : Bytes
a_message = replicate 16 7 ++ (46 ∷ 0x20 ∷ 37 ∷ 8 ∷ replicate 8 0)

looks_like : looks_like_ike a_message ≡ true
unfolding looks_like_ike
looks_like = refl

demultiplex-send_ike_example : demultiplex (send_ike at_4500 a_message).1 ≡ to_ike a_message
demultiplex-send_ike_example =
    demultiplex-send_ike at_4500 a_message looks_like (λ e. absurd (omega arith))

abbrev an_esp_packet : Bytes
an_esp_packet = replicate 40 7

demultiplex-looks_like_ike_example :
    (HasIkeForm an_esp_packet
      → (demultiplex an_esp_packet ≡ to_ike an_esp_packet)
        × (demultiplex (0 ∷ 0 ∷ 0 ∷ 0 ∷ an_esp_packet) ≡ to_ike an_esp_packet))
    × ((HasIkeForm an_esp_packet → ⊥) → demultiplex an_esp_packet ≡ to_esp an_esp_packet)
demultiplex-looks_like_ike_example =
    demultiplex-looks_like_ike an_esp_packet (omega arith) (λ e. absurd (omega arith))
