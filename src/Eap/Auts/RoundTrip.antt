-- ===== src/Eap/Auts/RoundTrip.antt =====
-- auts.go: the network gets the SIM's sequence number out of the synchronization failure.
use swu_go.Eap.Packet.RoundTrip.{parse-encode}
use swu_go.Eap.Attributes.RoundTrip.{put_all, parse_attributes-encode_attribute}
use swu_go.Prelude.Map.{put}
use swu_go.Prelude.Parse.{concat_map}
use swu_go.Prelude.{
  sym, ◌∙◌, append-nil, ap, ℕ, ◌^◌, ◌≤◌, ◌<◌, ◌≡◌, refl, false, [], ◌∷◌, ◌++◌, Result, ok, shorter,
  shorter-false, length, length-append, length-take, take, drop, replicate, take-append_eq,
  append_assoc, All, arith,
}
use swu_go.Prelude.Bytes.{Bytes, IsByte, xor_front, length-xor_front, xor_front_twice}
use swu_go.Eap.Packet.{EapPacket, EapError, parse, encode, encode_body, is_exchange, is_aka}
use swu_go.Eap.Attributes.{AkaAttribute, AttributeMap, words_of, encode_attribute, parse_attributes}
use swu_go.Eap.Auts.{
  encode_sqn, decode_sqn, extract_sqn_from_autn, build_auts, build_sync_failure_response,
}

decode_sqn-encode_sqn : (sqn : ℕ) → sqn < 2 ^ 48 → decode_sqn (encode_sqn sqn) ≡ sqn
unfolding decode_sqn encode_sqn
decode_sqn-encode_sqn sqn h = omega arith

length-encode_sqn : (sqn : ℕ) → length (encode_sqn sqn) ≡ 6
unfolding encode_sqn
length-encode_sqn sqn = refl

encode_sqn-IsByte : (sqn : ℕ) → All IsByte (encode_sqn sqn)
unfolding encode_sqn
encode_sqn-IsByte sqn =
    (omega arith, (omega arith, (omega arith, (omega arith, (omega arith, (omega arith, tt))))))

-- The body of the packet, and its only attribute.
abbrev pub auts_content : Bytes → Bytes
auts_content auts = 0 ∷ 0 ∷ (auts ++ (0 ∷ 0 ∷ []))

abbrev pub auts_packet : ℕ → Bytes → EapPacket
auts_packet eap_id auts = record {
  code = 2;
  identifier = eap_id;
  eap_type = 23;
  subtype = 4;
  body = 4 ∷ 5 ∷ auts_content auts;
}

abbrev pub auts_attribute : Bytes → AkaAttribute
auts_attribute auts = record { attr_type = 4; attr_length = 5; value = auts_content auts }

sync_bytes :
    (eap_id : ℕ) (auts : Bytes)
    → length auts ≡ 14
    → build_sync_failure_response eap_id auts ≡ encode (auts_packet eap_id auts)
unfolding build_sync_failure_response encode encode_body is_exchange is_aka
sync_bytes eap_id auts h =
    let size : length (auts ++ (0 ∷ 0 ∷ [])) ≡ 16 =
      omega (arith, length-append auts (0 ∷ 0 ∷ [])) in
    rw (take-append_eq 14 auts (replicate 14 0) (sym h), size) refl

abbrev plain_attribute : Bytes → AkaAttribute
plain_attribute auts = record { attr_type = 4; attr_length = 0; value = 0 ∷ 0 ∷ auts }

sync_attributes :
    (auts : Bytes)
    → length auts ≡ 14
    → parse_attributes (4 ∷ 5 ∷ auts_content auts) ≡ ok ((4, auts_attribute auts) ∷ [])
unfolding encode_attribute words_of put
sync_attributes auts h =
    let back = parse_attributes-encode_attribute (plain_attribute auts ∷ []) (omega arith, tt) in
    let bytes : concat_map encode_attribute (plain_attribute auts ∷ [])
        ≡ 4 ∷ 5 ∷ auts_content auts =
      rw h (ap (λ r. 4 ∷ 5 ∷ 0 ∷ 0 ∷ r) (append-nil (auts ++ (0 ∷ 0 ∷ [])))) in
    let found : ◌≡◌ {A = Result EapError AttributeMap} (ok (put_all (plain_attribute auts ∷ []) []))
        (ok ((4, auts_attribute auts) ∷ [])) =
      rw h refl in
    sym (ap parse_attributes bytes) ∙ (back ∙ found)

parse_sync :
    (eap_id : ℕ) (auts : Bytes)
    → length auts ≡ 14
    → parse (build_sync_failure_response eap_id auts) ≡ ok (auts_packet eap_id auts)
unfolding is_exchange is_aka
parse_sync eap_id auts h =
    ap parse (sync_bytes eap_id auts h ∙ sym (append-nil (encode (auts_packet eap_id auts))))
    ∙ parse-encode (auts_packet eap_id auts) [] (omega (arith, length-append auts (0 ∷ 0 ∷ [])))

-- For a number of 48 bits, AK* of six bytes at least and MAC-S of eight at least, BuildAUTS gives 14 bytes.
-- The packet that BuildSyncFailureResponse makes of them is, for Parse, the answer with the subtype 4 to
-- the challenge, ParseAttributes finds AT_AUTS in it and nothing else, and from its value, behind the
-- two reserved bytes, ExtractSQNFromAUTN with AK* gives the number back.
pub extract_sqn-build_auts :
    (sqn eap_id : ℕ) (ak_star mac_s : Bytes)
    → sqn < 2 ^ 48
    → 6 ≤ length ak_star
    → 8 ≤ length mac_s
    → (auts : Bytes) × (build_auts sqn ak_star mac_s ≡ ok auts)
      × (length auts ≡ 14)
      × (parse (build_sync_failure_response eap_id auts) ≡ ok (auts_packet eap_id auts))
      × (parse_attributes (auts_packet eap_id auts).body ≡ ok ((4, auts_attribute auts) ∷ []))
      × (extract_sqn_from_autn (drop 2 (auts_attribute auts).value) ak_star ≡ ok sqn)
unfolding build_auts extract_sqn_from_autn
extract_sqn-build_auts sqn eap_id ak mac hs ha hm =
    let hidden = xor_front 6 (encode_sqn sqn) ak in
    let auts = hidden ++ take 8 mac in
    let front : length hidden ≡ 6 =
      length-xor_front 6 (encode_sqn sqn) ak (omega (arith, length-encode_sqn sqn)) ha in
    let size : length auts ≡ 14 =
      omega (arith, length-append hidden (take 8 mac), length-take 8 mac) in
    let some_bytes : shorter (auts ++ (0 ∷ 0 ∷ [])) 6 ≡ false =
      shorter-false (auts ++ (0 ∷ 0 ∷ [])) 6 (omega (arith, length-append auts (0 ∷ 0 ∷ []))) in
    let shown : xor_front 6 (auts ++ (0 ∷ 0 ∷ [])) ak ≡ encode_sqn sqn =
      ap (λ r. xor_front 6 r ak) (append_assoc hidden (take 8 mac) (0 ∷ 0 ∷ []))
      ∙ xor_front_twice 6 (encode_sqn sqn) ak (take 8 mac ++ (0 ∷ 0 ∷ []))
          (omega (arith, length-encode_sqn sqn)) ha (encode_sqn-IsByte sqn) in
    let extracts : extract_sqn_from_autn (auts ++ (0 ∷ 0 ∷ [])) ak ≡ ok sqn =
      rw (some_bytes, shorter-false ak 6 ha)
        (ap ok (ap decode_sqn shown ∙ decode_sqn-encode_sqn sqn hs)) in
    (
      auts,
      rw (shorter-false ak 6 ha, shorter-false mac 8 hm) refl,
      size,
      parse_sync eap_id auts size,
      sync_attributes auts size,
      extracts,
    )
