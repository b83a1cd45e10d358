-- ===== src/Swu/Routes.antt =====
-- pkg/swu/routes.go: traffic selectors as routes.
pub mod Tiling
mod Tests
use swu_go.Prelude.{
  ℕ, zero, suc, ◌+◌, ◌-◌, ◌*◌, ◌/◌, ◌%◌, ◌^◌, Bool, true, false, ◌&&◌, not, List, [], ◌∷◌, Option,
  none, some, Result, ok, err, stuck, ◌>>=◌, ltb, leb, ◌==◌, if◌then◌else◌, length,
}
use swu_go.Prelude.Bytes.{Bytes, u32_at}
use swu_go.Ikev2.Ts.{TrafficSelector, ts_ipv4_addr_range, ts_ipv6_addr_range}
use swu_go.Swu.Selector.{to4}

-- `none` is a nil selector.
unfoldable pub is_full_ipv4_range : Option TrafficSelector → Bool
is_full_ipv4_range none = false
is_full_ipv4_range (some ts) =
    if not (ts.ts_type == ts_ipv4_addr_range)
    then false
    else if not (length ts.start_addr == 4 && length ts.end_addr == 4)
    then false
    else (u32_at 0 ts.start_addr == 0) && (u32_at 0 ts.end_addr == 0xffffffff)

-- `for _, b := range xs { if b != c { return false } }`
abbrev pub all_equal : ℕ → Bytes → Bool
all_equal c [] = true
all_equal c (b ∷ bs) = (b == c) && all_equal c bs

unfoldable pub is_full_ipv6_range : Option TrafficSelector → Bool
is_full_ipv6_range none = false
is_full_ipv6_range (some ts) =
    if not (ts.ts_type == ts_ipv6_addr_range)
    then false
    else if not (length ts.start_addr == 16 && length ts.end_addr == 16)
    then false
    else all_equal 0 ts.start_addr && all_equal 0xff ts.end_addr

-- bits.TrailingZeros32 on a number of at most `fuel` bits that is not 0.
unfoldable pub trailing_zeros : ℕ → ℕ → ℕ
trailing_zeros zero n = 0
trailing_zeros (suc fuel) n = elim (n % 2 == 0) [
  | true ↦ suc (trailing_zeros fuel (n / 2))
  | false ↦ 0
]

-- `maxBlock` is the power of two with this exponent.
unfoldable pub max_block : ℕ → ℕ
max_block cur = if cur == 0 then 32 else trailing_zeros 32 cur

-- `for maxBlock > remaining { maxBlock >>= 1 }`; a block of 1 is not larger than what remains.
unfoldable pub shrink : ℕ → ℕ → ℕ
shrink zero remaining = zero
shrink (suc k) remaining = elim (ltb remaining (2 ^ suc k)) [
  | true ↦ shrink k remaining
  | false ↦ suc k
]

pub data RangeError : Type 0 where
  not_ipv4 : RangeError
  bad_range : RangeError

-- The loop, from `cur`: a block is its first address and the length of its prefix.
unfoldable pub cidrs_from : ℕ → ℕ → ℕ → Result RangeError (List (ℕ × ℕ))
cidrs_from zero cur last = if leb cur last then stuck else ok []
cidrs_from (suc fuel) cur last = elim (leb cur last) [
  | false ↦ ok []
  | true ↦
      let k = shrink (max_block cur) (last - cur + 1) in
      cidrs_from fuel (cur + 2 ^ k) last >>= λ blocks. ok ((cur % 2 ^ 32, 32 - k) ∷ blocks)
]

-- ipv4RangeToCIDRs, without the text of the blocks. Each round moves `cur` by 1 at least.
abbrev pub cidrs_between : Option Bytes → Option Bytes → Result RangeError (List (ℕ × ℕ))
cidrs_between none e = err not_ipv4
cidrs_between (some s) none = err not_ipv4
cidrs_between (some s) (some e) =
    if ltb (u32_at 0 e) (u32_at 0 s)
    then err bad_range
    else cidrs_from (suc (u32_at 0 e)) (u32_at 0 s) (u32_at 0 e)

unfoldable pub ipv4_range_to_cidrs : Bytes → Bytes → Result RangeError (List (ℕ × ℕ))
ipv4_range_to_cidrs first last = cidrs_between (to4 first) (to4 last)
