-- ===== src/Ikev2/Ts/Tests.antt =====
-- payload_ts.go: runs, and the theorems at concrete inputs.
use swu_go.Prelude.{◌≡◌, refl, inl, [], ◌∷◌, err, panic, arith}
use swu_go.Prelude.Parse.{parse_n}
use swu_go.Ikev2.Types.{ts_ipv4_length}
use swu_go.Ikev2.Ts.{
  TrafficSelector, new_traffic_selector_ipv4, new_traffic_selector_ipv6, encode_selector,
  encode_selectors, encode_ts, decode_ts, next_selector, selector_addresses,
}
use swu_go.Ikev2.Ts.RoundTrip.{FitsSelector}

abbrev pub any_ipv4 : TrafficSelector
any_ipv4 = record {
  ts_type = 7;
  ip_protocol = 0;
  start_port = 0;
  end_port = 65535;
  start_addr = 0 ∷ 0 ∷ 0 ∷ 0 ∷ [];
  end_addr = 255 ∷ 255 ∷ 255 ∷ 255 ∷ [];
}

pub any_ipv4-Fits : FitsSelector any_ipv4
any_ipv4-Fits = record {
  start_port = omega arith;
  end_port = omega arith;
  addresses = inl (refl, (refl, refl));
}

any_ipv4_made :
    new_traffic_selector_ipv4 (0 ∷ 0 ∷ 0 ∷ 0 ∷ []) (255 ∷ 255 ∷ 255 ∷ 255 ∷ []) 0 65535 ≡ any_ipv4
unfolding new_traffic_selector_ipv4
any_ipv4_made = refl

ipv6_type : (new_traffic_selector_ipv6 [] [] 0 65535).ts_type ≡ 8
unfolding new_traffic_selector_ipv6
ipv6_type = refl

unknown_type : encode_ts (record any_ipv4 { ts_type = 9 } ∷ []) ≡ panic
unfolding encode_ts encode_selectors encode_selector
unknown_type = refl

bad_length : decode_ts (1 ∷ 0 ∷ 0 ∷ 0 ∷ 7 ∷ 0 ∷ 0 ∷ 9 ∷ 0 ∷ 0 ∷ 0 ∷ 0 ∷ 1 ∷ []) ≡ err ts_ipv4_length
unfolding decode_ts next_selector selector_addresses parse_n
bad_length = refl
