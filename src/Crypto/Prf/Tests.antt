-- ===== src/Crypto/Prf/Tests.antt =====
-- prf.go: a run, and the theorem at a concrete input, with a toy PRF.
use swu_go.Prelude.{◌%◌, ◌≡◌, refl, [], ◌∷◌, ok, length}
use swu_go.Crypto.Prf.{Prf, prf_plus, prf_loop, next_block}
use swu_go.Crypto.Prf.Stream.{full_stream, cut_stream, prf_plus-full_stream}

-- A block is the length of its input, and a 1.
abbrev pub toy_prf : Prf
toy_prf = record { mac = λ key text. (length text % 256) ∷ 1 ∷ []; key_len = 2 }

-- Five bytes: the first block has an input of 2 bytes, the later ones of 4.
five_bytes : prf_plus toy_prf [] (7 ∷ []) 5 ≡ ok (2 ∷ 1 ∷ 4 ∷ 1 ∷ 4 ∷ [])
unfolding prf_plus prf_loop next_block
five_bytes = refl

prf_plus-full_stream_example :
    prf_plus toy_prf [] (7 ∷ []) 5 ≡ cut_stream (full_stream toy_prf [] (7 ∷ [])) 5
prf_plus-full_stream_example = prf_plus-full_stream toy_prf [] (7 ∷ []) 5
