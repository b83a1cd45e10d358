-- ===== src/Swu/Fragment.antt =====
-- pkg/swu/fragment.go, the receiving side: the fragments of a message are kept by number until all are
-- there, and are then joined.
pub mod Reassembly
mod Tests
use swu_go.Prelude.{
  ℕ, zero, suc, ◌+◌, ◌%◌, ◌^◌, Bool, true, false, Option, none, some, List, [], ◌∷◌, ◌++◌, not,
  Result, ok, err, stuck, ◌>>=◌, ltb, leb, ◌==◌, if◌then◌else◌, length,
}
use swu_go.Prelude.Bytes.{Bytes}
use swu_go.Prelude.Map.{get, put, del}
use swu_go.Swu.Error.{
  SwuError, fragment_total_mismatch, fragments_too_large, no_fragments, fragment_missing,
}

abbrev pub max_fragmented_packet : ℕ
max_fragmented_packet = 65536

-- `received` and `total_len` are those of the fragments so far.
pub record FragmentSet : Type 0 where
  pub total : ℕ
  pub received : List (ℕ × Bytes)
  pub total_len : ℕ

-- fragmentBuffer, by message ID.
abbrev pub FragmentBuffer : Type 0
FragmentBuffer = List (ℕ × FragmentSet)

unfoldable pub fresh_set : ℕ → FragmentSet
fresh_set total = record { total = total; received = []; total_len = 0 }

unfoldable pub found : ℕ → ℕ → FragmentBuffer → FragmentSet
found id total fb = elim (get id fb) [ none ↦ fresh_set total | some fs ↦ fs ]

-- The part behind the checks of the total: `fs` is the set, put back in the buffer.
unfoldable pub store_fragment :
    ℕ → ℕ → Bytes → FragmentSet → FragmentBuffer → FragmentBuffer × Result SwuError Bool
store_fragment id num plaintext fs fb = elim (get num fs.received) [
  | some old ↦ (put id fs fb, ok false)
  | none ↦
      let total_len = fs.total_len + length plaintext in
      if ltb max_fragmented_packet total_len
      then (del id fb, err fragments_too_large)
      else (let received = put num plaintext fs.received in
          (
            put id (record { total = fs.total; received = received; total_len = total_len }) fb,
            ok (length received % 2 ^ 16 == fs.total),
          ))
]

-- The new buffer, and whether all fragments are there.
unfoldable pub add_fragment :
    ℕ → ℕ → ℕ → Bytes → FragmentBuffer → FragmentBuffer × Result SwuError Bool
add_fragment id num total plaintext fb =
    let fs = found id total fb in
    if ltb fs.total total
    then store_fragment id num plaintext (fresh_set total) fb
    else if not (fs.total == total)
    then (put id fs fb, err fragment_total_mismatch)
    else store_fragment id num plaintext fs fb

-- `for i := uint16(1); i <= fs.total; i++`: the counter wraps at 2^16, so with a total of 65535 the
-- test always holds.
unfoldable pub collect : ℕ → ℕ → ℕ → List (ℕ × Bytes) → Result SwuError Bytes
collect zero i total received = stuck
collect (suc fuel) i total received = elim (leb i total) [
  | false ↦ ok []
  | true ↦ elim (get i received) [
    | none ↦ err fragment_missing
    | some d ↦ do rest ← collect fuel ((i + 1) % 2 ^ 16) total received; ok (d ++ rest)
  ]
]

unfoldable pub clear_on_success :
    ℕ → FragmentBuffer → Result SwuError Bytes → FragmentBuffer × Result SwuError Bytes
clear_on_success id fb (ok d) = (del id fb, ok d)
clear_on_success id fb r = (fb, r)

-- The new buffer and the joined bytes. `total + 1` rounds are enough for a total below 65535.
unfoldable pub reassemble : ℕ → FragmentBuffer → FragmentBuffer × Result SwuError Bytes
unfolding clear_on_success
reassemble id fb = elim (get id fb) [
  | none ↦ (fb, err no_fragments)
  | some fs ↦ clear_on_success id fb (collect (suc fs.total) 1 fs.total fs.received)
]
