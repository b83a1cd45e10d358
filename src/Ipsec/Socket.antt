-- ===== src/Ipsec/Socket.antt =====
-- pkg/ipsec/socket.go: IKE and ESP on one UDP socket.
pub mod Demultiplex
mod Tests
use swu_go.Prelude.{
  ℕ, ◌+◌, ◌%◌, ◌^◌, Bool, true, false, ◌&&◌, ◌||◌, not, Option, none, some, List, [], ◌∷◌, ◌++◌,
  ltb, ◌==◌, if◌then◌else◌, shorter, length, get_or, drop,
}
use swu_go.Prelude.Bytes.{Bytes, byte_at, u32_at}
use swu_go.Ikev2.Types.{ike_auth, create_child_sa, informational}

abbrev ike_sa_init : ℕ
ike_sa_init = 34

unfoldable pub looks_like_ike : Bytes → Bool
looks_like_ike data' =
    if shorter data' 28
    then false
    else if not (byte_at 17 data' == 0x20)
    then false
    else (let ex = byte_at 18 data' in
        (ex == ike_sa_init) || (ex == ike_auth) || (ex == create_child_sa) || (ex == informational))

unfoldable pub parse_ike_payload : Bytes → Option Bytes
parse_ike_payload data' =
    if shorter data' 4
    then none
    else if u32_at 0 data' == 0
    then (if shorter data' 32
        then none
        else if looks_like_ike (drop 4 data')
        then some (drop 4 data')
        else none)
    else if shorter data' 28
    then none
    else if looks_like_ike data'
    then some data'
    else none

-- Where a datagram goes: nowhere, to IKEChan or to ESPChan.
pub data Delivery : Type 0 where
  ignored : Delivery
  to_ike : Bytes → Delivery
  to_esp : Bytes → Delivery

-- A keepalive is the one byte 0xff.
abbrev is_keepalive : Bytes → Bool
is_keepalive data' = (length data' == 1) && (byte_at 0 data' == 0xff)

-- The marker of four zeros is taken off, and nothing is left out but an empty rest.
abbrev pub esp_data : Bytes → Bytes
esp_data data' = if not (shorter data' 4) && (u32_at 0 data' == 0) then drop 4 data' else data'

abbrev pub deliver_esp : Bytes → Delivery
deliver_esp [] = ignored
deliver_esp (b ∷ bs) = to_esp (b ∷ bs)

-- The end of a round of readLoop, with room in the channels.
unfoldable pub demultiplex : Bytes → Delivery
demultiplex data' =
    if is_keepalive data'
    then ignored
    else elim (parse_ike_payload data') [ some d ↦ to_ike d | none ↦ deliver_esp (esp_data data') ]

-- The addresses that are accepted, the one that is sent to, with its port, and the counter of SendIKE.
pub record Remote : Type 0 where
  pub remote_ips : List Bytes
  pub remote_ip : Bytes
  pub remote_port : ℕ
  pub remote_idx : ℕ

-- `same_ip` is package net's IP.Equal.
module _ (same_ip : Bytes → Bytes → Bool) where
  abbrev knows : Bytes → List Bytes → Bool
  knows ip [] = false
  knows ip (rip ∷ rips) = same_ip ip rip || knows ip rips

  -- The source of a datagram: `none` if it is not allowed, and else the new remote end, which is fixed to
  -- the address if there were several, and follows the port.
  unfoldable pub accept_source : Remote → Bytes → ℕ → Option Remote
  accept_source r ip port =
      let follow : Remote → Remote = λ r'.
        if not (port == r'.remote_port) && ltb 0 port
        then record r' { remote_port = port }
        else r' in
      if length r.remote_ips == 0
      then some (follow r)
      else if knows ip r.remote_ips
      then some (
          follow (
            if ltb 1 (length r.remote_ips)
            then record r { remote_ip = ip; remote_ips = ip ∷ []; remote_idx = 0 }
            else r))
      else none

-- SendIKE: the new remote end, and the bytes that are sent to it.
unfoldable pub send_ike : Remote → Bytes → Remote × Bytes
send_ike r data' =
    let n = length r.remote_ips in
    let r' =
      if ltb 1 n
      then record r {
        remote_idx = (r.remote_idx + 1) % 2 ^ 32;
        remote_ip = get_or r.remote_ips (r.remote_idx % n) [];
      }
      else r in
    (r', if r'.remote_port == 4500 then 0 ∷ 0 ∷ 0 ∷ 0 ∷ data' else data')
