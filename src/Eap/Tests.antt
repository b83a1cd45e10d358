-- ===== src/Eap/Tests.antt =====
-- pkg/eap: the theorems at concrete inputs.
use swu_go.Prelude.{◌+◌, ◌^◌, ◌≡◌, List, [], ◌∷◌, leb, ok, length, drop, arith}
use swu_go.Prelude.Bytes.{Bytes}
use swu_go.Prelude.Parse.{concat_map}
use swu_go.Eap.Packet.{EapPacket, parse}
use swu_go.Eap.Attributes.{AkaAttribute, encode_attribute, parse_attributes}
use swu_go.Eap.Attributes.RoundTrip.{put_all, parse_attributes-encode_attribute}
use swu_go.Eap.Auts.{
  new_sqn_manager, verify_sqn, build_auts, build_sync_failure_response, extract_sqn_from_autn,
}
use swu_go.Eap.Auts.RoundTrip.{auts_packet, auts_attribute, extract_sqn-build_auts}
use swu_go.Eap.Auts.Window.{
  SqnCall, verify, update, sqn_run, largest, largest_update, verify_sqn-largest,
}

abbrev a_challenge : EapPacket
a_challenge = record {
  code = 1;
  identifier = 7;
  eap_type = 23;
  subtype = 1;
  body = 1 ∷ 1 ∷ 0 ∷ 0 ∷ [];
}

abbrev two_attributes : List AkaAttribute
two_attributes =
    record { attr_type = 10; attr_length = 0; value = [] }
    ∷ record { attr_type = 14; attr_length = 0; value = 0 ∷ 3 ∷ 97 ∷ 98 ∷ 99 ∷ [] }
    ∷ []

parse_attributes-encode_attribute_example :
    parse_attributes (concat_map encode_attribute two_attributes) ≡ ok (put_all two_attributes [])
parse_attributes-encode_attribute_example =
    parse_attributes-encode_attribute two_attributes (omega arith, (omega arith, tt))

abbrev ak : Bytes
ak = 0x11 ∷ 0x22 ∷ 0x33 ∷ 0x44 ∷ 0x55 ∷ 0x66 ∷ []

abbrev mac : Bytes
mac = 1 ∷ 2 ∷ 3 ∷ 4 ∷ 5 ∷ 6 ∷ 7 ∷ 8 ∷ []

extract_sqn-build_auts_example :
    (auts : Bytes) × (build_auts 0x123456 ak mac ≡ ok auts)
    × (length auts ≡ 14)
    × (parse (build_sync_failure_response 7 auts) ≡ ok (auts_packet 7 auts))
    × (parse_attributes (auts_packet 7 auts).body ≡ ok ((4, auts_attribute auts) ∷ []))
    × (extract_sqn_from_autn (drop 2 (auts_attribute auts).value) ak ≡ ok 0x123456)
extract_sqn-build_auts_example =
    extract_sqn-build_auts 0x123456 7 ak mac (omega arith) (omega arith) (omega arith)

abbrev a_history : List SqnCall
a_history = verify 90 ∷ update 120 ∷ verify 500 ∷ []

verify_sqn-largest_example :
    ((verify_sqn (sqn_run a_history (new_sqn_manager 100)) 7).0
      ≡ leb (largest 100 a_history) (7 + 2 ^ 28))
    × ((sqn_run a_history (new_sqn_manager 100)).sqn ≡ largest_update 100 a_history)
verify_sqn-largest_example = verify_sqn-largest 100 a_history 7
