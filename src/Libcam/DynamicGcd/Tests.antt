-- ===== src/Libcam/DynamicGcd/Tests.antt =====
-- Runs of `dynamic_gcd`, and the theorems at concrete ranges.
use cam_alias_checker.Prelude.{arith, ℕ, ◌+◌, ◌-◌, ◌*◌, ◌^◌, ◌≡◌, ◌≢◌, refl, some}
use cam_alias_checker.Libcam.DynamicGcd.{
  euclid_gcd, extended_euclid, dynamic_gcd, ordered_gcd, gcd_from, delta, clash, euclid_lcm,
}
use cam_alias_checker.Libcam.DynamicGcd.Bezout.{combination, extended_euclid-IsGcd}
use cam_alias_checker.Libcam.DynamicGcd.Sound.{IsGcd, euclid_gcd-IsGcd, dynamic_gcd-ne}

euclid_gcd-IsGcd_example : (g : ℕ) × (euclid_gcd 12 18 ≡ some g) × IsGcd 12 18 g
euclid_gcd-IsGcd_example = euclid_gcd-IsGcd 12 18

extended_euclid-IsGcd_example :
    (x : ℕ) × (y : ℕ) × (extended_euclid 5 7 ≡ some (x, y)) × IsGcd 5 7 (combination 5 7 x y)
extended_euclid-IsGcd_example = extended_euclid-IsGcd 5 7 (ground arith) (ground arith)

no_clash : dynamic_gcd 0 1 100 101 2 4 ≡ some (0, 0, 0)
unfolding dynamic_gcd ordered_gcd euclid_gcd gcd_from delta clash euclid_lcm
no_clash = refl

dynamic_gcd-ne_example : 0 + 3 * 2 ≢ 1 + 5 * 4
dynamic_gcd-ne_example = dynamic_gcd-ne 0 1 100 101 2 4 3 5 no_clash

-- The multiples of 3 and the numbers 1, 5, 9, ... meet at 9, then at 21.
first_clash : dynamic_gcd 0 1 30 30 3 4 ≡ some (9, 12, 2)
unfolding dynamic_gcd ordered_gcd euclid_gcd gcd_from delta clash euclid_lcm
first_clash = refl

-- 5 * 3 - 7 * 2 = 1, where -2 is a word
coefficients : extended_euclid 5 7 ≡ some (3, 2 ^ 64 - 2)
unfolding extended_euclid
coefficients = refl

-- The multiples of 5 and the numbers 1, 8, 15, ... meet at 15 first; the product with the negative
-- coefficient is divided as an unsigned word, and the answer is 31, no multiple of 5.
wrong_clash : dynamic_gcd 0 1 700 701 5 7 ≡ some (31, 35, 20)
unfolding dynamic_gcd ordered_gcd euclid_gcd gcd_from delta clash euclid_lcm
wrong_clash = refl
