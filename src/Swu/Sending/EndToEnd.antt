-- ===== src/Swu/Sending/EndToEnd.antt =====
-- fragment.go, both sides: what fragmentMessage sends is put together again at the other end.
use swu_go.Prelude.{
  ℕ, zero, suc, ◌+◌, ◌-◌, ◌*◌, ◌/◌, ◌^◌, ◌≤◌, ◌<◌, ◌≡◌, true, refl, sym, ap, ◌∙◌, subst, Option,
  none, some, List, [], ◌∷◌, ◌++◌, ok, ◌>>=◌, ltb-false, leb-false, ==_false, if◌then◌else◌, length,
  take, drop, slice-drop, arith,
}
use swu_go.Prelude.Bytes.{Bytes}
use swu_go.Prelude.Map.{get}
use native.Mathlib.Nat.{lt-mul-div-succ, suc-mul, zero-mul, mul_comm, add-zero}
use swu_go.Ikev2.Payload.{Payload}
use swu_go.Ikev2.Packet.{encode_chain, first_type}
use swu_go.Swu.Session.{Session, next_sequence_number}
use swu_go.Swu.Fragment.{FragmentBuffer, reassemble}
use swu_go.Swu.Fragment.Reassembly.{
  feed, numbered, join, answers, sizes, DistinctNumbers, reassemble-feed,
}
use swu_go.Swu.Message.{decrypt_skf}
use swu_go.Swu.Message.Opening.{other_end, Works}
use swu_go.Swu.Sending.{
  ike_overhead, fragment_icv, max_fragments, pad_in_place, build_all, send_chunks, send_room,
  send_inner, fragment_message,
}
use swu_go.Swu.Sending.RoundTrip.{decrypt_skf-build_skf_packet}

-- The chunks of `m` bytes, from the `i`-th on.
abbrev pub chunks_from : ℕ → Bytes → ℕ → ℕ → List Bytes
chunks_from m inner i zero = []
chunks_from m inner i (suc left) = take m (drop (i * m) inner) ∷ chunks_from m inner (suc i) left

-- The size of a chunk that the MTU leaves, and the number of fragments.
abbrev pub chunk_size : Session → ℕ
chunk_size s =
    s.ike_fragment_mtu
    - (ike_overhead + s.enc_alg.iv_size + fragment_icv s)
    - (if s.ike_is_aead then 0 else s.enc_alg.block_size)

abbrev pub chunk_count : Session → Bytes → ℕ
chunk_count s inner = (length inner + chunk_size s - 1) / chunk_size s

abbrev pub chunks : Session → Bytes → List Bytes
chunks s inner = chunks_from (chunk_size s) inner 0 (chunk_count s inner)

length-chunks_from :
    (m : ℕ) (inner : Bytes) (i left : ℕ) → length (chunks_from m inner i left) ≡ left
length-chunks_from m inner i zero = refl
length-chunks_from m inner i (suc left) = ap suc (length-chunks_from m inner (suc i) left)

drop_all : (n : ℕ) (xs : Bytes) → length xs ≤ n → drop n xs ≡ []
drop_all zero [] h = refl
drop_all zero (x ∷ xs) h = absurd (omega arith)
drop_all (suc n) [] h = refl
drop_all (suc n) (x ∷ xs) h = drop_all n xs (omega arith)

join-chunks_from :
    (m : ℕ) (inner : Bytes) (i left : ℕ)
    → length inner ≤ (i + left) * m
    → join (chunks_from m inner i left) ≡ drop (i * m) inner
join-chunks_from m inner i zero h =
    sym (drop_all (i * m) inner (subst (λ k. length inner ≤ k * m) (add-zero i) h))
join-chunks_from m inner i (suc left) h =
    let step : i + suc left ≡ suc i + left = omega arith in
    let rest = join-chunks_from m inner (suc i) left (subst (λ k. length inner ≤ k * m) step h) in
    ap (λ r. take m (drop (i * m) inner) ++ r) (rest ∙ ap (λ k. drop k inner) (suc-mul i m))
    ∙ slice-drop (i * m) m inner

-- What the packets seal: each chunk as it is when its turn comes.
unfoldable pub sent_from : Session → ℕ → ℕ → Bytes → ℕ → ℕ → List Bytes
sent_from s spare m inner i zero = []
sent_from s spare m inner i (suc left) =
    let chunk = take m (drop (i * m) inner) in
    let inner' = pad_in_place s spare inner (i * m + length chunk) (length chunk) in
    chunk ∷ sent_from s spare m inner' (suc i) left

-- An AEAD needs no padding.
sent_from-chunks_from :
    (s : Session) (spare m : ℕ) (inner : Bytes) (i left : ℕ)
    → s.ike_is_aead ≡ true
    → sent_from s spare m inner i left ≡ chunks_from m inner i left
unfolding sent_from pad_in_place
sent_from-chunks_from s spare m inner i zero h = refl
sent_from-chunks_from s spare m inner i (suc left) h =
    ap (λ r. take m (drop (i * m) inner) ∷ r)
      (rw h (sent_from-chunks_from s spare m inner (suc i) left h))

-- The packets open, one by one, as the numbered plaintexts, each with the total.
abbrev pub Opens : Session → ℕ → List Bytes → List (ℕ × Bytes) → Type 0
Opens s total [] [] = Unit {0}
Opens s total [] (x ∷ xs) = ⊥
Opens s total (p ∷ ps) [] = ⊥
Opens s total (p ∷ ps) ((num, text) ∷ xs) =
    (decrypt_skf s p ≡ ok (record { text = text; number = num; total = total }))
    × Opens s total ps xs

build_all-Opens :
    (s other : Session) (spare : ℕ) (inner : Bytes) (m total msg_id exchange first : ℕ)
    (random : ℕ → Option Bytes) (ivs : ℕ → Bytes) (left i : ℕ)
    → Works s
    → total < 2 ^ 16
    → i + left < 2 ^ 16
    → ((j : ℕ) → random j ≡ some (ivs j))
    → ((j : ℕ) → length (ivs j) ≡ s.enc_alg.iv_size)
    → (packets : List Bytes) × (build_all s spare inner m total msg_id exchange first random i left
        ≡ ok packets)
      × Opens
          (other_end s other)
          total
          packets
          (numbered (suc i) (sent_from s spare m inner i left))
unfolding build_all sent_from
build_all-Opens s other spare inner m total msg_id exchange first random ivs zero i w ht hi hr hl =
    ([], refl, tt)
build_all-Opens s other spare inner m total msg_id exchange first random ivs (suc left) i w ht hi hr
      hl =
    let (p, built, opened, _) =
      decrypt_skf-build_skf_packet s other (take m (drop (i * m) inner)) (suc i) total msg_id
        exchange first (ivs i) w (omega arith) ht (hl i) in
    let (ps, all_built, all_opened) =
      build_all-Opens s other spare
        (pad_in_place s spare inner (i * m + length (take m (drop (i * m) inner)))
          (length (take m (drop (i * m) inner))))
        m total msg_id exchange first random ivs left (suc i) w ht (omega arith) hr hl in
    (p ∷ ps, rw (hr i, built, all_built) refl, (opened, all_opened))

abbrev used : Session → ℕ
used s = ike_overhead + s.enc_alg.iv_size + fragment_icv s

abbrev block_of : Session → ℕ
block_of s = if s.ike_is_aead then 0 else s.enc_alg.block_size

next_sequence_number-Works : (s : Session) → Works s → Works (next_sequence_number s).0
unfolding next_sequence_number
next_sequence_number-Works s w = record {
  encrypts = w.encrypts;
  integrity_laws = w.integrity_laws;
  block_size = w.block_size;
}

-- There is enough to cut, and not too much: it is cut.
send_chunks-cut :
    (s : Session) (spare : ℕ) (inner : Bytes) (m exchange first : ℕ) (random : ℕ → Option Bytes)
    → let n = (length inner + m - 1) / m in
      2 ≤ n
      → n ≤ 255
      → (send_chunks s spare inner m exchange first random).1 ≡ (
          build_all
            (next_sequence_number s).0
            spare
            inner
            m
            n
            s.sequence_number
            exchange
            first
            random
            0
            n
          >>= λ ps. ok (some ps))
unfolding send_chunks next_sequence_number
send_chunks-cut s spare inner m exchange first random low high =
    let n = (length inner + m - 1) / m in
    rw (ltb-false max_fragments n high, leb-false n 1 (omega arith)) refl

send_inner-cut :
    (s : Session) (spare : ℕ) (inner : Bytes) (exchange first : ℕ) (random : ℕ → Option Bytes)
    → used s + block_of s < s.ike_fragment_mtu
    → send_inner s spare (ok inner) exchange first random
      ≡ send_chunks s spare inner (chunk_size s) exchange first random
unfolding send_inner send_room
send_inner-cut s spare inner exchange first random h =
    let room = s.ike_fragment_mtu - used s in
    rw
      (
        leb-false s.ike_fragment_mtu (used s) (omega arith),
        ==_false (block_of s) room (λ e. absurd (omega arith)),
        ltb-false room (block_of s) (omega arith),
      )
      refl

-- The chunks are all of the text.
join-chunks : (s : Session) (inner : Bytes) → 1 ≤ chunk_size s → join (chunks s inner) ≡ inner
join-chunks s inner pos =
    let m = chunk_size s in
    let n = chunk_count s inner in
    let enough : length inner + m - 1 < m * (n + 1) = lt-mul-div-succ (length inner + m - 1) pos in
    let step : 0 + n ≡ n = omega arith in
    join-chunks_from m inner 0 n
      (subst (λ k. length inner ≤ k * m) (sym step) (covers (length inner) m n pos enough))
    ∙ ap (λ k. drop k inner) (zero-mul m)
  where
    covers : (len m n : ℕ) → 1 ≤ m → len + m - 1 < m * (n + 1) → len ≤ n * m
    covers len m n h k =
        let step : n + 1 ≡ suc n = omega arith in
        let product : m * (n + 1) ≡ n * m + m =
          mul_comm m (n + 1) ∙ (ap (λ j. j * m) step ∙ suc-mul n m) in
        omega arith

-- The packets that the session sends, with its own sequence number, open at the other end as what was sealed.
packets-Opens :
    (s other : Session) (spare : ℕ) (inner : Bytes) (m n exchange first : ℕ)
    (random : ℕ → Option Bytes) (ivs : ℕ → Bytes)
    → Works s
    → n ≤ 255
    → ((j : ℕ) → random j ≡ some (ivs j))
    → ((j : ℕ) → length (ivs j) ≡ s.enc_alg.iv_size)
    → (packets : List Bytes) × (build_all
          (next_sequence_number s).0
          spare
          inner
          m
          n
          s.sequence_number
          exchange
          first
          random
          0
          n
        ≡ ok packets)
      × Opens
          (other_end s other)
          n
          packets
          (numbered 1 (sent_from (next_sequence_number s).0 spare m inner 0 n))
unfolding next_sequence_number
packets-Opens s other spare inner m n exchange first random ivs w h hr hl =
    build_all-Opens (next_sequence_number s).0 other spare inner m n s.sequence_number exchange
      first random ivs n 0 (next_sequence_number-Works s w) (omega arith) (omega arith) hr hl

-- What fragmentMessage sends with an AEAD is put together again. Let the algorithms of the session keep their laws, the
-- random numbers have the size of the IV, the payloads be encoded as the text `inner`, the MTU leave room
-- for a byte of text, and the text need 2 to 255 fragments. Then fragmentMessage gives packets without an
-- error; the other end opens them one by one as the chunks of the text, numbered from 1, with their total;
-- and if its fragment buffer gets these chunks, which have 64 KiB at most, in any order under an ID of
-- which it holds none, only the answer to the last says that the message is complete, and reassemble
-- gives back the text.
pub fragment_message-reassemble :
    (s other : Session) (spare : ℕ) (payloads : List Payload) (exchange : ℕ)
    (random : ℕ → Option Bytes) (ivs : ℕ → Bytes) (inner : Bytes) (id : ℕ) (x : ℕ × Bytes)
    (xs : List (ℕ × Bytes)) (fb : FragmentBuffer)
    → Works s
    → s.ike_is_aead ≡ true
    → ((j : ℕ) → random j ≡ some (ivs j))
    → ((j : ℕ) → length (ivs j) ≡ s.enc_alg.iv_size)
    → encode_chain payloads ≡ ok inner
    → used s + block_of s < s.ike_fragment_mtu
    → 2 ≤ chunk_count s inner
    → chunk_count s inner ≤ 255
    → get id fb ≡ none
    → chunk_count s inner ≡ suc (length xs)
    → sizes (x ∷ xs) ≤ 65536
    → DistinctNumbers (x ∷ xs)
    → ((i : ℕ) → get i (x ∷ xs) ≡ get i (numbered 1 (chunks s inner)))
    → let (fb', said) = feed id (chunk_count s inner) (x ∷ xs) fb in
      (packets : List Bytes) × ((fragment_message s spare payloads exchange random).1
        ≡ ok (some packets))
      × Opens (other_end s other) (chunk_count s inner) packets (numbered 1 (chunks s inner))
      × (said ≡ answers (x ∷ xs))
      × ((reassemble id fb').1 ≡ ok inner)
unfolding fragment_message next_sequence_number
fragment_message-reassemble s other spare payloads exchange random ivs inner id x xs fb w aead hr hl
      hc room low high new count small distinct same =
    let n = chunk_count s inner in
    let m = chunk_size s in
    let first = first_type payloads in
    let (packets, built, opened) =
      packets-Opens s other spare inner m n exchange first random ivs w high hr hl in
    let same_chunks = sent_from-chunks_from (next_sequence_number s).0 spare m inner 0 n aead in
    let size : length (chunks s inner) ≡ n = length-chunks_from m inner 0 n in
    let (said, joined, _) =
      reassemble-feed id (chunks s inner) x xs fb new (size ∙ count) (omega arith) small distinct
        same in
    let total = sym size in
    (
      packets,
      rw (hc) (
          ap (λ r. r.1) (send_inner-cut s spare inner exchange first random room)
          ∙ (send_chunks-cut s spare inner m exchange first random low high ∙ rw built refl)),
      subst (λ cs. Opens (other_end s other) n packets (numbered 1 cs)) same_chunks opened,
      subst (λ k. (feed id k (x ∷ xs) fb).1 ≡ answers (x ∷ xs)) size said,
      subst (λ k. (reassemble id (feed id k (x ∷ xs) fb).0).1 ≡ ok inner) size
          (joined ∙ ap ok (join-chunks s inner (omega arith))),
    )
