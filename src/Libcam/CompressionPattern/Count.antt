-- ===== src/Libcam/CompressionPattern/Count.antt =====
-- The numbers of instances of libcam/src/CompressionPattern.cpp against the symbols that a pattern stands
-- for.
use cam_alias_checker.Prelude.{
  ℕ, zero, suc, ◌+◌, ◌*◌, ◌%◌, ◌≡◌, refl, ap, sym, ◌∙◌, true, false, List, [], ◌∷◌, ◌++◌, ltb, ◌==◌,
  if◌then◌else◌, arith, Bool-cases, inl, inr,
}
use native.Mathlib.Nat.{mod-mod, mod-add-mod}
use cam_alias_checker.Libcam.Machine.{word, mul-congruent, add-congruent}
use cam_alias_checker.ControlFlow.Pattern.Expand.{copies}
use cam_alias_checker.Libcam.CompressionPattern.{
  CompressionPattern, leaf, parent, CompressionPatternChild, child, PatternVector, no_more, more,
  Counts, add_count, add_counts, get_number_of_instances_map, child_instances, vector_instances,
}

-- the symbols that a pattern stands for
unfoldable mutual
  unfolding copies

  pub expand : CompressionPattern → List ℕ
  expand (leaf s) = s ∷ []
  expand (parent s c) = expand_child c

  pub expand_child : CompressionPatternChild → List ℕ
  expand_child (child ps n) = copies n (expand_vector ps)

  pub expand_vector : PatternVector → List ℕ
  expand_vector no_more = []
  expand_vector (more p ps) = expand p ++ expand_vector ps

-- how often a symbol comes in a list
unfoldable pub occurrences : ℕ → List ℕ → ℕ
occurrences s [] = 0
occurrences s (x ∷ xs) = (if s == x then 1 else 0) + occurrences s xs

pub occurrences-append :
    (s : ℕ) (xs ys : List ℕ) → occurrences s (xs ++ ys) ≡ occurrences s xs + occurrences s ys
unfolding occurrences
occurrences-append s [] ys = omega arith
occurrences-append s (x ∷ xs) ys =
    let e = occurrences-append s xs ys in
    elim (Bool-cases (s == x)) [ inl p ↦ rw p (omega (arith, e)) | inr p ↦ rw p (omega (arith, e)) ]

occurrences-copies : (s n : ℕ) (xs : List ℕ) → occurrences s (copies n xs) ≡ n * occurrences s xs
unfolding occurrences copies
occurrences-copies s zero xs = omega arith
occurrences-copies s (suc n) xs =
    omega (arith, occurrences-append s xs (copies n xs), occurrences-copies s n xs)

-- the sum of the numbers of a symbol
unfoldable pub total : ℕ → Counts → ℕ
total s [] = 0
total s (x ∷ xs) = (if s == x.0 then x.1 else 0) + total s xs

total-add_count :
    (s k v : ℕ) (m : Counts)
    → total s (add_count k v m) % word ≡ ((if s == k then v else 0) + total s m) % word
unfolding total add_count
total-add_count s k v [] = elim (Bool-cases (s == k)) [
  | inl p ↦ rw p (mod-add-mod v word 0)
  | inr p ↦ rw p refl
]
total-add_count s k v (x ∷ xs) = elim (Bool-cases (ltb k x.0)) [
  | inl p ↦ elim (Bool-cases (s == k)) [
    | inl q ↦ rw (p, q) (mod-add-mod v word (total s (x ∷ xs)))
    | inr q ↦ rw (p, q) refl
  ]
  | inr p ↦ elim (Bool-cases (ltb x.0 k)) [
    | inl q ↦
        let here = if s == x.0 then x.1 else 0 in
        let new = if s == k then v else 0 in
        rw (p, q)
          (add-congruent here here (total s (add_count k v xs)) (new + total s xs) refl
              (total-add_count s k v xs)
            ∙ ap (λ z. z % word)
                (let e : here + (new + total s xs) ≡ new + (here + total s xs) = omega arith in e))
    | inr q ↦
        let same : k ≡ x.0 = ground (arith, p, q) in
        elim (Bool-cases (s == k)) [
          | inl r ↦
              let r' : (s == x.0) ≡ true = ground (arith, r, same) in
              rw (p, q, r, r')
                (mod-add-mod (x.1 + v) word (total s xs)
                  ∙ ap (λ z. z % word)
                      (let e : x.1 + v + total s xs ≡ v + (x.1 + total s xs) = omega arith in e))
          | inr r ↦
              (let r' : (s == x.0) ≡ false = ground (arith, r, same) in
                rw (p, q, r, r')
                  (ap (λ z. z % word)
                    (let e : 0 + total s xs ≡ 0 + (0 + total s xs) = omega arith in e)))
        ]
  ]
]

pub total-add_counts :
    (s n : ℕ) (inner m : Counts)
    → total s (add_counts n inner m) % word ≡ (total s m + n * total s inner) % word
unfolding total add_counts
total-add_counts s n [] m =
    ap (λ z. z % word) (let e : total s m ≡ total s m + n * 0 = omega arith in e)
total-add_counts s n (x ∷ xs) m =
    let v = n * x.1 % word in
    let new = if s == x.0 then v else 0 in
    let more_than = total s m + n * total s xs in
    let value : new % word ≡ (n * (if s == x.0 then x.1 else 0)) % word =
      elim (Bool-cases (s == x.0)) [
        | inl p ↦ rw p (mod-mod (n * x.1) word)
        | inr p ↦ rw p (ap (λ z. z % word) (let e : 0 ≡ n * 0 = omega arith in e))
      ] in
    let here = if s == x.0 then x.1 else 0 in
    total-add_counts s n xs (add_count x.0 v m)
    ∙ add-congruent (total s (add_count x.0 v m)) (new + total s m) (n * total s xs)
        (n * total s xs) (total-add_count s x.0 v m) refl
    ∙ ap (λ z. z % word)
        (let e : new + total s m + n * total s xs ≡ new + more_than = omega arith in e)
    ∙ add-congruent new (n * here) more_than more_than value refl
    ∙ ap (λ z. z % word)
        (let e : n * here + more_than ≡ total s m + n * (here + total s xs) = omega arith in e)

mutual
  unfolding total occurrences expand get_number_of_instances_map

  pub total-instances :
      (s : ℕ) (p : CompressionPattern)
      → total s (get_number_of_instances_map p) % word ≡ occurrences s (expand p) % word
  total-instances s (leaf t) = refl
  total-instances s (parent t c) = total-child s c

  total-child :
      (s : ℕ) (c : CompressionPatternChild)
      → total s (child_instances c) % word ≡ occurrences s (expand_child c) % word
  total-child s (child ps n) =
      total-vector s n ps []
      ∙ ap (λ z. z % word)
          (let e : 0 + n * occurrences s (expand_vector ps) ≡ n * occurrences s (expand_vector ps) =
              omega arith in
            e)
      ∙ ap (λ z. z % word) (sym (occurrences-copies s n (expand_vector ps)))

  total-vector :
      (s n : ℕ) (ps : PatternVector) (m : Counts)
      → total s (vector_instances n ps m) % word
        ≡ (total s m + n * occurrences s (expand_vector ps)) % word
  total-vector s n no_more m =
      ap (λ z. z % word) (let e : total s m ≡ total s m + n * 0 = omega arith in e)
  total-vector s n (more p ps) m =
      let inner = get_number_of_instances_map p in
      let own = occurrences s (expand p) in
      let rest = occurrences s (expand_vector ps) in
      total-vector s n ps (add_counts n inner m)
      ∙ add-congruent (total s (add_counts n inner m)) (total s m + n * own) (n * rest) (n * rest)
          (total-add_counts s n inner m
            ∙ add-congruent (total s m) (total s m) (n * total s inner) (n * own) refl
                (mul-congruent n (total s inner) own (total-instances s p)))
          refl
      ∙ ap (λ z. z % word)
          (let e : total s m + n * own + n * rest ≡ total s m + n * (own + rest) = omega arith in e)
      ∙ ap (λ z. (total s m + n * z) % word)
          (sym (occurrences-append s (expand p) (expand_vector ps)))
