-- ===== src/Swu/Selector/Tests.antt =====
-- selector.go: the theorem at a concrete packet.
use swu_go.Prelude.{ℕ, [], ◌∷◌, List, none, some}
use swu_go.Prelude.Bytes.{Bytes}
use swu_go.Ikev2.Ts.{TrafficSelector}
use swu_go.Swu.Selector.{ChildOutPolicy}

-- A segment of TCP to port 443 of 10.0.0.5.
abbrev a_packet : Bytes
a_packet =
    0x45 ∷ 0 ∷ 0 ∷ 24 ∷ 0 ∷ 0 ∷ 0 ∷ 0 ∷ 64 ∷ 6 ∷ 0 ∷ 0 ∷ 10 ∷ 0 ∷ 0 ∷ 1 ∷ 10 ∷ 0 ∷ 0 ∷ 5 ∷ 0xc0 ∷ 0
    ∷ 1 ∷ 0xbb ∷ []

abbrev tcp_to_ten : TrafficSelector
tcp_to_ten = record {
  ts_type = 7;
  ip_protocol = 6;
  start_port = 0;
  end_port = 65535;
  start_addr = 10 ∷ 0 ∷ 0 ∷ 0 ∷ [];
  end_addr = 10 ∷ 0 ∷ 0 ∷ 255 ∷ [];
}

abbrev two_policies : List (ChildOutPolicy ℕ)
two_policies =
    record { sa_out = none; tsr = some tcp_to_ten ∷ [] }
    ∷ record { sa_out = some 7; tsr = none ∷ some tcp_to_ten ∷ [] }
    ∷ []
