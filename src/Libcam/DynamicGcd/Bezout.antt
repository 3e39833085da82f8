-- ===== src/Libcam/DynamicGcd/Bezout.antt =====
-- libcam/src/dynamic_gcd.cpp: the coefficients of `extended_euclid`.
use cam_alias_checker.Prelude.{
  ℕ, zero, suc, ◌+◌, ◌*◌, ◌/◌, ◌%◌, ◌^◌, ◌<◌, ◌≡◌, sym, ap, subst, false, some, ◌==◌, leb, arith,
  Bool-cases, inl, inr, ==_iff, ◌∙◌,
}
use native.Mathlib.Nat.{mod-lt, div-add-mod', div-le_self}
use cam_alias_checker.Libcam.Machine.{sub_word-add, mul-congruent, add-congruent, word, sub_word}
use cam_alias_checker.Libcam.DynamicGcd.{signed_div, euclid_from, extended_euclid}
use cam_alias_checker.Libcam.DynamicGcd.Sound.{IsGcd, IsGcd-step, IsGcd-zero, zero_lt_of_ne}

rearranged :
    (a b q s t s' t' : ℕ)
    → (a * s' + b * t') + q * (a * s + b * t) ≡ a * (s' + q * s) + b * (t' + q * t)
rearranged a b q s t s' t' = omega arith

combine :
    (a b q s t u v s' t' : ℕ)
    → (s' + q * s) % word ≡ u % word
    → (t' + q * t) % word ≡ v % word
    → ((a * s' + b * t') + q * (a * s + b * t)) % word ≡ (a * u + b * v) % word
combine a b q s t u v s' t' e f =
    ap (λ k. k % word) (rearranged a b q s t s' t')
    ∙ add-congruent (a * (s' + q * s)) (a * u) (b * (t' + q * t)) (b * v)
        (mul-congruent a (s' + q * s) u e) (mul-congruent b (t' + q * t) v f)

leb-small : (o : ℕ) → o < 2 ^ 63 → leb (2 ^ 63) o ≡ false
leb-small o lt = ground arith

signed_div-small : (o r : ℕ) → o < 2 ^ 63 → r < 2 ^ 63 → signed_div o r ≡ o / r
unfolding signed_div
signed_div-small o r lo lr =
    rw (leb-small o lo, leb-small r lr) (omega (arith, lo, div-le_self o r))

remainder :
    (o r : ℕ)
    → o < 2 ^ 63
    → r < 2 ^ 63
    → (r == 0) ≡ false
    → sub_word o (signed_div o r * r % word) ≡ o % r
remainder o r lo lr e =
    rw (signed_div-small o r lo lr) (omega (arith, div-add-mod' o r, mod-lt o (zero_lt_of_ne r e)))

next-combination :
    (x y z q o r : ℕ)
    → (x + q * y) % word ≡ z % word
    → y % word ≡ r
    → z % word ≡ o
    → q ≡ o / r
    → 0 < r
    → x % word ≡ o % r
next-combination x y z q o r e ey ez eq pos =
    let small : o < word = subst (λ k. k < word) ez (mod-lt z (omega arith)) in
    let same : (q * y) % word ≡ (q * r) % word = mul-congruent q y r (omega (arith, ey)) in
    let parts : q * r + o % r ≡ o = subst (λ k. k * r + o % r ≡ o) (sym eq) (div-add-mod' o r) in
    omega (arith, e, ez, same, parts, small)

-- the combination of `a` and `b` with the coefficients `s` and `t`
abbrev pub combination : (a b s t : ℕ) → ℕ
combination a b s t = (a * s + b * t) % word

module _ (a b : ℕ) where
  euclid_from-combination :
      (fuel r o t t' s s' : ℕ)
      → r < fuel
      → r < 2 ^ 63
      → o < 2 ^ 63
      → combination a b s t ≡ r
      → combination a b s' t' ≡ o
      → (x : ℕ) × (y : ℕ) × (euclid_from fuel r o t t' s s' ≡ some (x, y))
        × IsGcd o r (combination a b x y)
  unfolding euclid_from
  euclid_from-combination zero r o t t' s s' lt lr lo er eo = absurd (omega arith)
  euclid_from-combination (suc fuel) r o t t' s s' lt lr lo er eo = elim (Bool-cases (r == 0)) [
    | inl z ↦ (
      s',
      t',
      ground (arith, z),
      rw eo (subst (λ k. IsGcd o k o) (sym ((==_iff r 0).0 z)) (IsGcd-zero o)),
    )
    | inr z ↦
        let pos = zero_lt_of_ne r z in
        let q = signed_div o r in
        let small : o % r < r = mod-lt o pos in
        let s2 = sub_word s' (q * s % word) in
        let t2 = sub_word t' (q * t % word) in
        let e : combination a b s2 t2 ≡ o % r =
          next-combination (a * s2 + b * t2) (a * s + b * t) (a * s' + b * t') q o r
            (combine a b q s t s' t' s2 t2 (sub_word-add s' (q * s)) (sub_word-add t' (q * t))) er
            eo (signed_div-small o r lo lr) pos in
        let (x, y, run, v) =
          euclid_from-combination fuel (o % r) r t2 t s2 s (omega (arith, small, lt))
            (omega (arith, small, lr)) lr e er in
        (
          x,
          y,
          ground (arith, z, remainder o r lo lr z, run),
          IsGcd-step o r (combination a b x y) v,
        )
  ]

-- For arguments that are not negative, `extended_euclid` ends with coefficients whose combination,
-- as a word, is the greatest common divisor.
pub extended_euclid-IsGcd :
    (a b : ℕ)
    → a < 2 ^ 63
    → b < 2 ^ 63
    → (x : ℕ) × (y : ℕ) × (extended_euclid a b ≡ some (x, y)) × IsGcd a b (combination a b x y)
unfolding extended_euclid
extended_euclid-IsGcd a b la lb =
    let (x, y, run, v) =
      euclid_from-combination a b (b + 1) b a 1 0 0 1 (omega arith) lb la (omega (arith, lb))
        (omega (arith, la)) in
    (x, y, rw (leb-small b lb) run, v)
