-- ===== src/Libcam/DynamicGcd/Sound.antt =====
-- libcam/src/dynamic_gcd.cpp: the greatest common divisor, and ranges that never meet.
use cam_alias_checker.Prelude.{
  ℕ, zero, suc, ◌+◌, ◌-◌, ◌*◌, ◌%◌, ◌≤◌, ◌<◌, ◌≡◌, ◌≢◌, sym, subst, false, some, ◌==◌, ltb, arith,
  Bool-cases, inl, inr, ==_iff, Option-cases,
}
use Prim.Native.Nat.{◌∣◌}
use native.Mathlib.Nat.{
  dvd_refl, dvd-zero, dvd-mod_iff, mod-lt, dvd-add_iff_left, dvd-mul_left_of_dvd,
  mod-eq-zero_of_dvd,
}
use cam_alias_checker.Libcam.DynamicGcd.{
  gcd_from, euclid_gcd, extended_euclid, euclid_lcm, delta, clash, ordered_gcd, dynamic_gcd,
}

-- `g` divides `x` and `y`, and every number that divides both divides `g`.
pub record IsGcd (x y g : ℕ) : Type 0 where
  pub left : g ∣ x
  pub right : g ∣ y
  pub greatest : (d : ℕ) → d ∣ x → d ∣ y → d ∣ g

pub IsGcd-step : (x y g : ℕ) → IsGcd y (x % y) g → IsGcd x y g
IsGcd-step x y g v = record {
  left = (dvd-mod_iff g v.left).0 v.right;
  right = v.left;
  greatest = λ d a b. v.greatest d b ((dvd-mod_iff d b).1 a);
}

pub zero_lt_of_ne : (y : ℕ) → (y == 0) ≡ false → 0 < y
zero_lt_of_ne y e = ground arith

pub IsGcd-zero : (x : ℕ) → IsGcd x 0 x
IsGcd-zero x = record { left = dvd_refl x; right = dvd-zero x; greatest = λ d a b. a }

gcd_from-IsGcd : (fuel x y : ℕ) → y < fuel → (g : ℕ) × (gcd_from fuel x y ≡ some g) × IsGcd x y g
unfolding gcd_from
gcd_from-IsGcd zero x y lt = absurd (omega arith)
gcd_from-IsGcd (suc fuel) x y lt = elim (Bool-cases (y == 0)) [
  | inl e ↦ (x, ground (arith, e), subst (λ z. IsGcd x z x) (sym ((==_iff y 0).0 e)) (IsGcd-zero x))
  | inr e ↦
      let small : x % y < y = mod-lt x (zero_lt_of_ne y e) in
      let (g, run, v) = gcd_from-IsGcd fuel y (x % y) (omega (arith, lt, small)) in
      (g, ground (arith, e, run), IsGcd-step x y g v)
]

-- `euclid_gcd` ends for all arguments, with their greatest common divisor.
pub euclid_gcd-IsGcd : (x y : ℕ) → (g : ℕ) × (euclid_gcd x y ≡ some g) × IsGcd x y g
unfolding euclid_gcd
euclid_gcd-IsGcd x y = gcd_from-IsGcd (y + 1) x y (omega arith)

-- an address of both ranges lets the greatest common divisor divide `delta`
dvd-delta :
    (g low1 low2 s1 s2 i j : ℕ)
    → g ∣ s1
    → g ∣ s2
    → 0 < s1
    → low1 ≤ low2
    → low1 + i * s1 ≡ low2 + j * s2
    → g ∣ delta low1 low2 s1
unfolding delta
dvd-delta g low1 low2 s1 s2 i j a b pos le e =
    let total : g ∣ (low2 - low1) + j * s2 =
      subst (λ n. g ∣ n) (let k : i * s1 ≡ (low2 - low1) + j * s2 = omega arith in k)
        (dvd-mul_left_of_dvd g a i) in
    let d : g ∣ low2 - low1 = (dvd-add_iff_left g (dvd-mul_left_of_dvd g b j)).1 total in
    let r : g ∣ (low2 - low1) % s1 = (dvd-mod_iff g a).1 d in
    let whole : g ∣ (s1 - (low2 - low1) % s1) + (low2 - low1) % s1 =
      subst (λ n. g ∣ n)
        (let k : s1 ≡ (s1 - (low2 - low1) % s1) + (low2 - low1) % s1 =
            omega (arith, mod-lt (low2 - low1) pos) in
          k)
        a in
    (dvd-mod_iff g a).1 ((dvd-add_iff_left g r).1 whole)

-- `dynamic_gcd` never ends its last branch with three zeros.
clash-ne :
    (low1 low2 high1 high2 s1 s2 g : ℕ) → clash low1 low2 high1 high2 s1 s2 g ≢ some (0, 0, 0)
unfolding clash
clash-ne low1 low2 high1 high2 s1 s2 g e = elim (Option-cases (euclid_lcm s1 s2)) [
  | inl p ↦ ground (arith, p, e)
  | inr (lcm, p) ↦ elim (Option-cases (extended_euclid s1 s2)) [
    | inl q ↦ ground (arith, p, q, e)
    | inr ((x, y), q) ↦ ground (arith, p, q, e)
  ]
]

ordered_gcd-ne :
    (low1 low2 high1 high2 s1 s2 i j : ℕ)
    → low1 ≤ low2
    → ordered_gcd low1 low2 high1 high2 s1 s2 ≡ some (0, 0, 0)
    → low1 + i * s1 ≢ low2 + j * s2
unfolding ordered_gcd
ordered_gcd-ne low1 low2 high1 high2 s1 s2 i j le e meet =
    let (g, run, v) = euclid_gcd-IsGcd s1 s2 in
    elim (Bool-cases (s1 == 0)) [
      | inl z ↦ ground (arith, z, e)
      | inr z ↦
          let d =
            mod-eq-zero_of_dvd g
              (dvd-delta g low1 low2 s1 s2 i j v.left v.right (zero_lt_of_ne s1 z) le meet) in
          elim (Bool-cases (g == 0)) [
            | inl w ↦ ground (arith, z, run, w, e)
            | inr w ↦ clash-ne low1 low2 high1 high2 s1 s2 g (ground (arith, z, run, w, d, e))
          ]
    ]

-- When `dynamic_gcd` answers with three zeros, no address of the first range is one of the second,
-- with ranges that go on without an end.
pub dynamic_gcd-ne :
    (low1 low2 high1 high2 s1 s2 i j : ℕ)
    → dynamic_gcd low1 low2 high1 high2 s1 s2 ≡ some (0, 0, 0)
    → low1 + i * s1 ≢ low2 + j * s2
unfolding dynamic_gcd
dynamic_gcd-ne low1 low2 high1 high2 s1 s2 i j e meet = elim (Bool-cases (ltb low2 low1)) [
  | inl b ↦
      ordered_gcd-ne low2 low1 high2 high1 s2 s1 j i (ground arith) (ground (arith, b, e))
        (sym meet)
  | inr b ↦
      ordered_gcd-ne low1 low2 high1 high2 s1 s2 i j (ground arith) (ground (arith, b, e)) meet
]
