-- ===== src/Swu/Routes/Tests.antt =====
-- routes.go: the theorem at a concrete range.
use swu_go.Prelude.{ℕ, suc, ◌≤◌, ◌≡◌, refl, ◌↔◌, List, [], ◌∷◌, some, ok, arith}
use swu_go.Prelude.Bytes.{Bytes, u32_at}
use swu_go.Swu.Selector.{to4}
use swu_go.Swu.Routes.{ipv4_range_to_cidrs, cidrs_from, trailing_zeros, max_block, shrink}
use swu_go.Swu.Routes.Tiling.{Tiles, InSome, ipv4_range_to_cidrs-InSome}

abbrev first_address : Bytes
first_address = 10 ∷ 0 ∷ 0 ∷ 1 ∷ []

abbrev last_address : Bytes
last_address = 10 ∷ 0 ∷ 0 ∷ 6 ∷ []

four : (xs : Bytes) → xs ≡ first_address → to4 xs ≡ some first_address
unfolding to4
four xs e = rw e refl

last_four : to4 last_address ≡ some last_address
unfolding to4
last_four = refl

-- 1, 2 to 3, 4 to 5, and 6.
four_blocks : cidrs_from 6 1 6 ≡ ok ((1, 32) ∷ (2, 31) ∷ (4, 31) ∷ (6, 32) ∷ [])
unfolding cidrs_from max_block shrink trailing_zeros
four_blocks = refl

ipv4_range_to_cidrs-InSome_example :
    (blocks : List (ℕ × ℕ)) × (ipv4_range_to_cidrs first_address last_address ≡ ok blocks)
    × Tiles (u32_at 0 first_address) (suc (u32_at 0 last_address)) blocks
    × ((x : ℕ) → InSome x blocks ↔ ((u32_at 0 first_address ≤ x) × (x ≤ u32_at 0 last_address)))
ipv4_range_to_cidrs-InSome_example =
    ipv4_range_to_cidrs-InSome first_address last_address first_address last_address
      (four first_address refl) last_four
      (omega arith, (omega arith, (omega arith, (omega arith, tt)))) (omega arith)
