-- ===== src/Libcam/DynamicGcd.antt =====
-- libcam/src/dynamic_gcd.{h,cpp}: where two strided ranges of addresses meet. Words have 64 bits; a
-- signed word is held as its two's complement, where C leaves an overflow undefined too. Division by
-- 0 has no result.
pub mod Sound
pub mod Bezout
mod Tests
use cam_alias_checker.Prelude.{
  ℕ, zero, suc, ◌+◌, ◌-◌, ◌*◌, ◌/◌, ◌%◌, ◌^◌, min, Bool, Option, none, some, ◌==◌, ltb, leb,
  if◌then◌else◌, ◌>>=◌,
}
use cam_alias_checker.Libcam.Machine.{word, sub_word, magnitude}

-- the quotient of signed words, rounded to 0, by a divisor that is not 0
unfoldable pub signed_div : ℕ → ℕ → ℕ
signed_div a b =
    let q = magnitude a / magnitude b in
    if leb (2 ^ 63) a
    then (if leb (2 ^ 63) b then q % word else (word - q) % word)
    else (if leb (2 ^ 63) b then (word - q) % word else q % word)

-- the loop of `euclid_gcd`, on fuel
unfoldable pub gcd_from : ℕ → ℕ → ℕ → Option ℕ
gcd_from zero x y = none
gcd_from (suc fuel) x y = if y == 0 then some x else gcd_from fuel y (x % y)

unfoldable pub euclid_gcd : ℕ → ℕ → Option ℕ
euclid_gcd x y = gcd_from (y + 1) x y

unfoldable pub euclid_lcm : ℕ → ℕ → Option ℕ
euclid_lcm x y = do g ← euclid_gcd x y; if g == 0 then none else some (x * y % word / g)

-- The loop of `extended_euclid`, on fuel, with the variables `r`, `old_r`, `t`, `old_t`, `s`, `old_s`.
unfoldable pub euclid_from : ℕ → (r old_r t old_t s old_s : ℕ) → Option (ℕ × ℕ)
unfolding signed_div
euclid_from zero r old_r t old_t s old_s = none
euclid_from (suc fuel) r old_r t old_t s old_s =
    if r == 0
    then some (old_s, old_t)
    else (let quot = signed_div old_r r in
        euclid_from fuel (sub_word old_r (quot * r % word)) r (sub_word old_t (quot * t % word)) t
          (sub_word old_s (quot * s % word)) s)

-- The magnitude of `r` falls in each round.
unfoldable pub extended_euclid : ℕ → ℕ → Option (ℕ × ℕ)
unfolding euclid_from
extended_euclid a b = euclid_from (magnitude b + 1) b a 1 0 0 1

-- the distance from `low2` to the first address of the other range that is not below it
unfoldable pub delta : (low1 low2 stride1 : ℕ) → ℕ
delta low1 low2 stride1 = (stride1 - (low2 - low1) % stride1) % stride1

-- The end of `dynamic_gcd`: the result when the greatest common divisor `g` of the strides divides
-- `delta`.
unfoldable pub clash : (low1 low2 high1 high2 stride1 stride2 g : ℕ) → Option (ℕ × ℕ × ℕ)
unfolding extended_euclid delta
clash low1 low2 high1 high2 stride1 stride2 g = do
  let len = (sub_word (min high1 high2) low2 + 1) % word
  lcm ← euclid_lcm stride1 stride2
  (x, y) ← extended_euclid stride1 stride2
  if lcm == 0
      then none
      else (let product = stride2 * y * delta low1 low2 stride1 % word in
          let offset = (product / g + lcm) % word % lcm in
          let count = (sub_word len ((offset + 1) % word) + lcm) % word / lcm in
          some ((low2 + offset) % word, lcm, count))

-- `dynamic_gcd` behind the swap, with `low1` not above `low2`
unfoldable pub ordered_gcd : (low1 low2 high1 high2 stride1 stride2 : ℕ) → Option (ℕ × ℕ × ℕ)
ordered_gcd low1 low2 high1 high2 stride1 stride2 = if stride1 == 0 then none else (do
  g ← euclid_gcd stride1 stride2
  if g == 0
      then none
      else (if delta low1 low2 stride1 % g == 0
          then clash low1 low2 high1 high2 stride1 stride2 g
          else some (0, 0, 0)))

unfoldable pub dynamic_gcd : (low1 low2 high1 high2 stride1 stride2 : ℕ) → Option (ℕ × ℕ × ℕ)
dynamic_gcd low1 low2 high1 high2 stride1 stride2 =
    if ltb low2 low1
    then ordered_gcd low2 low1 high2 high1 stride2 stride1
    else ordered_gcd low1 low2 high1 high2 stride1 stride2
