-- ===== src/Eap/Auts.antt =====
-- pkg/eap/auts.go: sequence numbers, and the answer to a challenge whose number is out of step.
pub mod RoundTrip
pub mod Window
use swu_go.Prelude.{
  ℕ, ◌+◌, ◌-◌, ◌*◌, ◌/◌, ◌%◌, ◌^◌, Bool, true, ◌||◌, List, [], ◌∷◌, ◌++◌, Result, ok, err, panic,
  ltb, leb, ◌==◌, if◌then◌else◌, shorter, length, take, replicate,
}
use swu_go.Prelude.Bytes.{Bytes, byte_at, be16, xor_front}
use swu_go.Eap.Packet.{EapError, autn_too_short}

pub record SqnManager : Type 0 where
  pub sqn : ℕ
  pub sqn_ms : ℕ
  pub amf : ℕ
  pub delta : ℕ

unfoldable pub new_sqn_manager : ℕ → SqnManager
new_sqn_manager initial = record { sqn = initial; sqn_ms = initial; amf = 0x8000; delta = 2 ^ 28 }

-- VerifySQN: the answer, and the manager after it.
unfoldable pub verify_sqn : SqnManager → ℕ → Bool × SqnManager
verify_sqn m received =
    if ltb m.sqn_ms received
    then (true, (record m { sqn_ms = received }))
    else (leb (m.sqn_ms - received) m.delta, m)

unfoldable pub update_sqn : SqnManager → ℕ → SqnManager
update_sqn m new = record m {
  sqn = if ltb m.sqn new then new else m.sqn;
  sqn_ms = if ltb m.sqn_ms new then new else m.sqn_ms;
}

unfoldable pub encode_sqn : ℕ → Bytes
encode_sqn sqn =
    (sqn / 2 ^ 40 % 256)
    ∷ (sqn / 2 ^ 32 % 256)
    ∷ (sqn / 2 ^ 24 % 256)
    ∷ (sqn / 2 ^ 16 % 256)
    ∷ (sqn / 2 ^ 8 % 256)
    ∷ (sqn % 256)
    ∷ []

unfoldable pub decode_sqn : Bytes → ℕ
decode_sqn data' =
    if shorter data' 6
    then 0
    else byte_at 0 data' * 2 ^ 40
      + byte_at 1 data' * 2 ^ 32
      + byte_at 2 data' * 2 ^ 24
      + byte_at 3 data' * 2 ^ 16
      + byte_at 4 data' * 2 ^ 8
      + byte_at 5 data'

unfoldable pub extract_sqn_from_autn : Bytes → Bytes → Result EapError ℕ
extract_sqn_from_autn autn ak =
    if shorter autn 6 || shorter ak 6
    then err autn_too_short
    else ok (decode_sqn (xor_front 6 autn ak))

-- BuildAUTS; akStar and macS are slices without spare capacity.
unfoldable pub build_auts : ℕ → Bytes → Bytes → Result EapError Bytes
build_auts sqn ak_star mac_s =
    if shorter ak_star 6 || shorter mac_s 8
    then panic
    else ok (xor_front 6 (encode_sqn sqn) ak_star ++ take 8 mac_s)

-- The header, with the length that is filled in last, and AT_AUTS with room for 14 bytes and two more.
unfoldable pub build_sync_failure_response : ℕ → Bytes → Bytes
build_sync_failure_response eap_id auts =
    2
    ∷ eap_id
    ∷ (be16 28
        ++ (23 ∷ 4 ∷ 0 ∷ 0 ∷ 4 ∷ 5 ∷ 0 ∷ 0 ∷ (take 14 (auts ++ replicate 14 0) ++ (0 ∷ 0 ∷ []))))
