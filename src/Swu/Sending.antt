-- ===== src/Swu/Sending.antt =====
-- pkg/swu/fragment.go, the sending side: a long message is cut into chunks, and each is sealed as an SKF
-- payload.
pub mod RoundTrip
pub mod EndToEnd
mod Tests
use swu_go.Prelude.{
  ℕ, zero, suc, ◌+◌, ◌-◌, ◌*◌, ◌/◌, ◌%◌, ◌^◌, Bool, true, false, ◌&&◌, not, Option, none, some,
  List, [], ◌∷◌, ◌++◌, Result, ok, err, panic, stuck, ◌>>=◌, ltb, leb, ◌==◌, if◌then◌else◌, length,
  take, drop, replicate,
}
use swu_go.Prelude.Bytes.{overwrite, Bytes, be16}
use swu_go.Ikev2.Types.{no_next_payload, encrypted_fragment_type, flag_initiator}
use swu_go.Ikev2.Header.{
  IkeHeader, encode_header, encode_payload_header, generic_header, ike_header_len,
}
use swu_go.Ikev2.Payload.{Payload, encode_payload}
use swu_go.Ikev2.Packet.{first_type, encode_chain}
use swu_go.Crypto.{Encrypter, IntegrityAlgorithm}
use swu_go.Swu.Error.{
  SwuError, lift, no_randomness, encryption_failed, fragment_mtu_too_small, too_many_fragments,
}
use swu_go.Swu.Session.{Session, icv_size, next_sequence_number}
use swu_go.Swu.Message.{or_fail, pad_len, tag}

abbrev ike_overhead : ℕ
ike_overhead = 28 + 8 + 20 + 8

abbrev max_fragments : ℕ
max_fragments = 255

-- The text to encrypt (what Go writes behind it in its buffer is `pad_in_place`) and the length of ciphertext that is expected; a block size of 0 is no error here.
unfoldable pub pad_skf : Session → Bytes → Bytes × ℕ
pad_skf s text =
    if s.ike_is_aead
    then (text, length text + 16)
    else if s.enc_alg.block_size == 0
    then (text, length text)
    else (let n = pad_len s.enc_alg.block_size (length text) in
        let padded = text ++ (replicate n 0 ++ ((n % 256) ∷ [])) in (padded, length padded))

-- buildSKFPacket. `random` is what crypto.RandomBytes gives.
unfoldable pub build_skf_packet :
    Session → Bytes → ℕ → ℕ → ℕ → ℕ → ℕ → Option Bytes → Result SwuError Bytes
build_skf_packet s plaintext frag_num total_frags msg_id exchange first random = do
  iv ← or_fail no_randomness random
  let padded : Bytes × ℕ = pad_skf s plaintext
  let len = (4 + 4 + length iv + padded.1 + icv_size s) % 2 ^ 16
  let hdr : IkeHeader = record {
    spi_i = s.spi_i;
    spi_r = s.spi_r;
    next_payload = encrypted_fragment_type;
    version = 0x20;
    exchange_type = exchange;
    flags = flag_initiator;
    message_id = msg_id;
    length = (ike_header_len + len) % 2 ^ 32;
  }
  let aad = encode_header hdr
  cipher ← or_fail encryption_failed (s.enc_alg.encrypt padded.0 s.keys.sk_ei iv aad)
  let next = if frag_num == 1 then first else no_next_payload
  let body =
      aad
      ++ (encode_payload_header (generic_header next false len)
          ++ ((be16 frag_num ++ be16 total_frags) ++ (iv ++ cipher)))
  ok (body ++ tag s body)

-- The tag of an AEAD counts as its ICV here.
abbrev fragment_icv : Session → ℕ
fragment_icv s = if s.ike_is_aead then 16 else icv_size s

-- What the two appends of buildSKFPacket write behind a plaintext that ends at `last` of the buffer `inner`,
-- which it shares: the padding and its length, as far as the buffer has room, `spare` bytes more than it
-- holds. Without room an append copies the plaintext and leaves the buffer.
unfoldable pub pad_in_place : Session → ℕ → Bytes → ℕ → ℕ → Bytes
pad_in_place s spare inner last len =
    if s.ike_is_aead
    then inner
    else if s.enc_alg.block_size == 0
    then inner
    else (let n = pad_len s.enc_alg.block_size len in
        let room = length inner + spare in
        if leb (last + n) room
        then (let zeros = overwrite last (replicate n 0) inner in
            if leb (last + n + 1) room then overwrite (last + n) ((n % 256) ∷ []) zeros else zeros)
        else inner)

-- The loop over the fragments from the `i`-th on, `left` of them; `random i` is the IV of the `i`-th. A
-- chunk is a slice of `inner`, so its padding is written over the next one.
unfoldable pub build_all :
    Session
    → ℕ
    → Bytes
    → ℕ
    → ℕ
    → ℕ
    → ℕ
    → ℕ
    → (ℕ → Option Bytes)
    → ℕ
    → ℕ
    → Result SwuError (List Bytes)
build_all s spare inner m total msg_id exchange first random i zero = ok []
build_all s spare inner m total msg_id exchange first random i (suc left) = do
  let chunk = take m (drop (i * m) inner)
  p ← build_skf_packet s chunk (suc i) total msg_id exchange first (random i)
  let inner' = pad_in_place s spare inner (i * m + length chunk) (length chunk)
  ps ← build_all s spare inner' m total msg_id exchange first random (suc i) left
  ok (p ∷ ps)

-- The part of fragmentMessage behind the size `m` of a chunk: the numbers of fragments, and the packets.
send_chunks :
    Session
    → ℕ
    → Bytes
    → ℕ
    → ℕ
    → ℕ
    → (ℕ → Option Bytes)
    → Session × Result SwuError (Option (List Bytes))
unfolding next_sequence_number
send_chunks s spare inner m exchange first random =
    let num_frags = (length inner + m - 1) / m in
    if ltb max_fragments num_frags
    then (s, err too_many_fragments)
    else if leb num_frags 1
    then (s, ok none)
    else (let (s', msg_id) = next_sequence_number s in
        (
          s',
          build_all s' spare inner m num_frags msg_id exchange first random 0 num_frags >>= λ ps.
              ok (some ps),
        ))

-- The part behind the test of the MTU: `room` is the positive size before the block is taken off. With
-- nothing left Go divides by 0. With a negative size -k the number (len - k - 1) / -k is at most 1 and
-- nothing is cut, but for an empty text and k = 1: there it is 2, and the slice [0:-1] panics.
send_room :
    Session
    → ℕ
    → Bytes
    → ℕ
    → ℕ
    → ℕ
    → (ℕ → Option Bytes)
    → Session × Result SwuError (Option (List Bytes))
send_room s spare inner room exchange first random =
    let block = if s.ike_is_aead then 0 else s.enc_alg.block_size in
    if block == room
    then (s, panic)
    else if ltb room block
    then (if (length inner == 0) && (block == room + 1) then (s, panic) else (s, ok none))
    else send_chunks s spare inner (room - block) exchange first random

send_inner :
    Session
    → ℕ
    → Result SwuError Bytes
    → ℕ
    → ℕ
    → (ℕ → Option Bytes)
    → Session × Result SwuError (Option (List Bytes))
send_inner s spare (err e) exchange first random = (s, err e)
send_inner s spare panic exchange first random = (s, panic)
send_inner s spare stuck exchange first random = (s, stuck)
send_inner s spare (ok inner) exchange first random =
    let used = ike_overhead + s.enc_alg.iv_size + fragment_icv s in
    if leb s.ike_fragment_mtu used
    then (s, err fragment_mtu_too_small)
    else send_room s spare inner (s.ike_fragment_mtu - used) exchange first random

-- fragmentMessage: `none` if the message needs no fragments. `spare` is the room that the appends left
-- behind the encoded payloads, cap(innerData) - len(innerData), which Go chooses.
pub fragment_message :
    Session
    → ℕ
    → List Payload
    → ℕ
    → (ℕ → Option Bytes)
    → Session × Result SwuError (Option (List Bytes))
fragment_message s spare payloads exchange random =
    send_inner s spare (lift (encode_chain payloads)) exchange (first_type payloads) random

-- shouldFragment. `supported` is the session's flag fragmentationSupported; a payload that cannot be
-- encoded makes the answer false.
pub bodies_size : List Payload → Result SwuError ℕ
bodies_size [] = ok 0
bodies_size (p ∷ ps) = do
  body ← lift (encode_payload p)
  n ← bodies_size ps
  ok (4 + length body + n)

pub should_fragment : Bool → Session → List Payload → Result SwuError Bool
should_fragment false s payloads = ok false
should_fragment true s payloads = elim (bodies_size payloads) [
  | err e ↦ ok false
  | panic ↦ panic
  | stuck ↦ stuck
  | ok n ↦ ok (ltb s.ike_fragment_mtu (ike_header_len + 4 + s.enc_alg.iv_size + n + fragment_icv s))
]
