-- ===== src/Ikev2/Ts.antt =====
-- pkg/ikev2/payload_ts.go: traffic selectors.
pub mod RoundTrip
mod Tests
use swu_go.Prelude.{
  ℕ, zero, suc, ◌+◌, ◌-◌, ◌%◌, ◌||◌, not, List, [], ◌∷◌, ◌++◌, Result, ok, err, panic, ◌>>=◌, ltb,
  ◌==◌, if◌then◌else◌, shorter, need, length, take, drop, replicate,
}
use swu_go.Prelude.Bytes.{Bytes, byte_at, be16, u16_at}
use swu_go.Prelude.Parse.{parse_n}
use swu_go.Ikev2.Types.{
  Error, ts_too_short, ts_no_selector_header, ts_no_selector_body, ts_ipv4_length, ts_ipv6_length,
  ts_unsupported_type,
}

abbrev pub ts_ipv4_addr_range : ℕ
ts_ipv4_addr_range = 7

abbrev pub ts_ipv6_addr_range : ℕ
ts_ipv6_addr_range = 8

pub record TrafficSelector : Type 0 where
  pub ts_type : ℕ
  pub ip_protocol : ℕ
  pub start_port : ℕ
  pub end_port : ℕ
  pub start_addr : Bytes
  pub end_addr : Bytes

-- `copy(buf[i:i+n], xs)` into a buffer of zeros.
abbrev copy_into : ℕ → Bytes → Bytes
copy_into n xs = take n (xs ++ replicate n 0)

-- The buffer, with addresses of `n` bytes.
emit_selector : ℕ → TrafficSelector → Bytes
emit_selector n ts =
    ts.ts_type
    ∷ ts.ip_protocol
    ∷ (be16 (8 + n + n)
        ++ (be16 ts.start_port
            ++ (be16 ts.end_port ++ (copy_into n ts.start_addr ++ copy_into n ts.end_addr))))

-- The buffer has 40 bytes for type 8 and else 16. For a type that is neither 7 nor 8 the slice
-- `buf[8:24]` of 16 bytes is out of range.
unfoldable pub encode_selector : TrafficSelector → Result Error Bytes
unfolding emit_selector
encode_selector ts =
    if ts.ts_type == ts_ipv6_addr_range
    then ok (emit_selector 16 ts)
    else if ts.ts_type == ts_ipv4_addr_range
    then ok (emit_selector 4 ts)
    else panic

pub encode_selectors : List TrafficSelector → Result Error Bytes
encode_selectors [] = ok []
encode_selectors (ts ∷ rest) = do b ← encode_selector ts; bs ← encode_selectors rest; ok (b ++ bs)

unfoldable pub encode_ts : List TrafficSelector → Result Error Bytes
encode_ts selectors = do
  ts_data ← encode_selectors selectors
  ok ((length selectors % 256) ∷ 0 ∷ 0 ∷ 0 ∷ ts_data)

-- The addresses of a selector, `length_field` being its length and `rest` what follows the ports.
selector_addresses : ℕ → ℕ → Bytes → Result Error (Bytes × Bytes)
selector_addresses t_type length_field rest =
    if t_type == ts_ipv4_addr_range
    then (if not (length_field == 16) || not (length rest == 8)
        then err ts_ipv4_length
        else need 8 rest (ok (take 4 rest, take 4 (drop 4 rest))))
    else if t_type == ts_ipv6_addr_range
    then (if not (length_field == 40) || not (length rest == 32)
        then err ts_ipv6_length
        else need 32 rest (ok (take 16 rest, take 16 (drop 16 rest))))
    else err ts_unsupported_type

-- One round of the loop of DecodePayloadTS, at `data[offset:]`.
next_selector : Bytes → Result Error (TrafficSelector × ℕ)
next_selector buf =
    if shorter buf 8
    then err ts_no_selector_header
    else need 8 buf (
        let length_field = u16_at 2 buf in
        if ltb length_field 8 || shorter buf length_field
        then err ts_no_selector_body
        else need length_field buf (do
          (start_addr, end_addr) ←
              selector_addresses (byte_at 0 buf) length_field (take (length_field - 8) (drop 8 buf))
          ok (
            record {
              ts_type = byte_at 0 buf;
              ip_protocol = byte_at 1 buf;
              start_port = u16_at 4 buf;
              end_port = u16_at 6 buf;
              start_addr = start_addr;
              end_addr = end_addr;
            },
            length_field,
          )))

pub decode_ts : Bytes → Result Error (List TrafficSelector)
decode_ts buf =
    if shorter buf 4
    then err ts_too_short
    else need 4 buf (parse_n next_selector (byte_at 0 buf) (drop 4 buf))

-- NewTrafficSelectorIPV4 and NewTrafficSelectorIPV6, on the bytes that To4 and To16 of package net give.
pub new_traffic_selector_ipv4 : Bytes → Bytes → ℕ → ℕ → TrafficSelector
new_traffic_selector_ipv4 start_ip end_ip start_port end_port = record {
  ts_type = ts_ipv4_addr_range;
  ip_protocol = 0;
  start_port = start_port;
  end_port = end_port;
  start_addr = start_ip;
  end_addr = end_ip;
}

pub new_traffic_selector_ipv6 : Bytes → Bytes → ℕ → ℕ → TrafficSelector
new_traffic_selector_ipv6 start_ip end_ip start_port end_port = record {
  ts_type = ts_ipv6_addr_range;
  ip_protocol = 0;
  start_port = start_port;
  end_port = end_port;
  start_addr = start_ip;
  end_addr = end_ip;
}
