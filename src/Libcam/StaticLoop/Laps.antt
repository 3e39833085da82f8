-- ===== src/Libcam/StaticLoop/Laps.antt =====
-- Iterations with the same number of instances in each: the iteration of every instance, in order.
use cam_alias_checker.Prelude.{
  ℕ, zero, suc, ◌+◌, ◌-◌, ◌*◌, ◌/◌, ◌≤◌, ◌<◌, ◌≡◌, refl, ap, ◌∙◌, some, List, [], ◌∷◌, ◌++◌,
  append_assoc, length, length-append, length-replicate, get_elem?, replicate, arith, Bool-cases,
  inl, inr, ltb,
}
use native.Mathlib.Nat.{div-eq_of_lt, div-eq-sub-div}

-- `n` iterations from `start` on, each of them `c` times
unfoldable pub laps : (start n c : ℕ) → List ℕ
laps s zero c = []
laps s (suc n) c = replicate c s ++ laps (s + 1) n c

pub length-laps : (s n c : ℕ) → length (laps s n c) ≡ n * c
unfolding laps
length-laps s zero c = omega arith
length-laps s (suc n) c = omega (
  arith,
  length-append (replicate c s) (laps (s + 1) n c),
  length-replicate c s,
  length-laps (s + 1) n c,
)

pub laps-add : (s n m c : ℕ) → laps s n c ++ laps (s + n) m c ≡ laps s (n + m) c
unfolding laps
laps-add s zero m c =
    let e : s + 0 ≡ s = omega arith in let f : 0 + m ≡ m = omega arith in rw (e, f) refl
laps-add s (suc n) m c =
    let e : s + suc n ≡ s + 1 + n = omega arith in
    let f : suc n + m ≡ suc (n + m) = omega arith in
    rw (e, f)
      (append_assoc (replicate c s) (laps (s + 1) n c) (laps (s + 1 + n) m c)
        ∙ ap (λ z. replicate c s ++ z) (laps-add (s + 1) n m c))

pub laps-none : (s n : ℕ) → laps s n 0 ≡ []
unfolding laps
laps-none s zero = refl
laps-none s (suc n) = laps-none (s + 1) n

pub get_elem?-replicate : (c s j : ℕ) → j < c → get_elem? (replicate c s) j ≡ some s
get_elem?-replicate zero s j h = absurd (omega (arith, h))
get_elem?-replicate (suc c) s zero h = refl
get_elem?-replicate (suc c) s (suc j) h = get_elem?-replicate c s j (omega (arith, h))

module _ {A : Type 0} where
  pub get_elem?-append_left :
      (xs ys : List A) (j : ℕ) → j < length xs → get_elem? (xs ++ ys) j ≡ get_elem? xs j
  get_elem?-append_left [] ys j h = absurd (omega (arith, h))
  get_elem?-append_left (x ∷ xs) ys zero h = refl
  get_elem?-append_left (x ∷ xs) ys (suc j) h = get_elem?-append_left xs ys j (omega (arith, h))

  pub get_elem?-append_right :
      (xs ys : List A) (j : ℕ) → get_elem? (xs ++ ys) (length xs + j) ≡ get_elem? ys j
  get_elem?-append_right [] ys j = ap (get_elem? ys) (let e : 0 + j ≡ j = omega arith in e)
  get_elem?-append_right (x ∷ xs) ys j =
      ap (get_elem? (x ∷ xs ++ ys))
        (let e : suc (length xs) + j ≡ suc (length xs + j) = omega arith in e)
      ∙ get_elem?-append_right xs ys j

-- The iteration of an instance, by a division.
pub get_elem?-laps : (s n c j : ℕ) → 0 < c → j < n * c → get_elem? (laps s n c) j ≡ some (s + j / c)
unfolding laps
get_elem?-laps s zero c j pos h = absurd (omega (arith, h))
get_elem?-laps s (suc n) c j pos h = elim (Bool-cases (ltb j c)) [
  | inl t ↦
      let lt : j < c = ground (arith, t) in
      let len = length-replicate c s in
      get_elem?-append_left (replicate c s) (laps (s + 1) n c) j (omega (arith, len, lt))
      ∙ get_elem?-replicate c s j lt
      ∙ ap some (let e : s ≡ s + j / c = omega (arith, div-eq_of_lt lt) in e)
  | inr t ↦
      let le : c ≤ j = ground (arith, t) in
      let len = length-replicate c s in
      let split : j ≡ length (replicate c s) + (j - c) = omega (arith, len, le) in
      let below : j - c < n * c = omega (arith, le, h) in
      ap (get_elem? (replicate c s ++ laps (s + 1) n c)) split
      ∙ get_elem?-append_right (replicate c s) (laps (s + 1) n c) (j - c)
      ∙ get_elem?-laps (s + 1) n c (j - c) pos below
      ∙ ap some
          (let e : s + 1 + (j - c) / c ≡ s + j / c = omega (arith, div-eq-sub-div pos le) in e)
]
