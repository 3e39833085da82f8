-- ===== src/Libcam/CompressionPattern/Ordered.antt =====
-- The maps of libcam/src/CompressionPattern.cpp have each symbol once, and so a look up gives all of it.
use cam_alias_checker.Prelude.{
  ℕ, ◌+◌, ◌*◌, ◌%◌, ◌≤◌, ◌<◌, ◌≡◌, refl, sym, ◌∙◌, false, [], ◌∷◌, ltb, ◌==◌, if◌then◌else◌, arith,
  Bool-cases, inl, inr,
}
use native.Mathlib.Nat.{mod-lt, mod-eq_of_lt}
use cam_alias_checker.Libcam.Machine.{word}
use cam_alias_checker.Libcam.CompressionPattern.{
  CompressionPattern, leaf, parent, child, PatternVector, no_more, more, Counts, add_count,
  add_counts, get_number_of_instances_map, vector_instances,
}
use cam_alias_checker.Libcam.CompressionPattern.Count.{total, total-instances, occurrences, expand}

-- The symbols come in order from `lo` on, and the numbers are words.
abbrev pub IsCounts : ℕ → Counts → Type 0
IsCounts lo [] = Unit
IsCounts lo (x ∷ xs) = (lo ≤ x.0) × (x.1 < word) × IsCounts (x.0 + 1) xs

-- `counts[s]`, where a symbol that is missing has none
abbrev pub count_at : ℕ → Counts → ℕ
count_at s [] = 0
count_at s (x ∷ xs) = if s == x.0 then x.1 else count_at s xs

pub add_count-IsCounts :
    (lo k v : ℕ) (m : Counts) → lo ≤ k → IsCounts lo m → IsCounts lo (add_count k v m)
unfolding add_count
add_count-IsCounts lo k v [] le w = (le, mod-lt v (omega arith), tt)
add_count-IsCounts lo k v (x ∷ xs) le w = elim (Bool-cases (ltb k x.0)) [
  | inl p ↦ rw p (le, mod-lt v (omega arith), (ground (arith, p), w.1, w.2))
  | inr p ↦ elim (Bool-cases (ltb x.0 k)) [
    | inl q ↦ rw (p, q) (w.0, w.1, add_count-IsCounts (x.0 + 1) k v xs (ground (arith, q)) w.2)
    | inr q ↦
        let same : k ≡ x.0 = ground (arith, p, q) in
        rw (p, q, same) (w.0, mod-lt (x.1 + v) (omega arith), w.2)
  ]
]

pub add_counts-IsCounts :
    (n : ℕ) (inner m : Counts) → IsCounts 0 m → IsCounts 0 (add_counts n inner m)
unfolding add_counts
add_counts-IsCounts n [] m w = w
add_counts-IsCounts n (x ∷ xs) m w =
    add_counts-IsCounts n xs (add_count x.0 (n * x.1 % word) m)
      (add_count-IsCounts 0 x.0 (n * x.1 % word) m (omega arith) w)

vector-IsCounts :
    (n : ℕ) (ps : PatternVector) (m : Counts) → IsCounts 0 m → IsCounts 0 (vector_instances n ps m)
unfolding get_number_of_instances_map
vector-IsCounts n no_more m w = w
vector-IsCounts n (more p ps) m w =
    let inner = get_number_of_instances_map p in
    vector-IsCounts n ps (add_counts n inner m) (add_counts-IsCounts n inner m w)

pub instances-IsCounts : (p : CompressionPattern) → IsCounts 0 (get_number_of_instances_map p)
unfolding get_number_of_instances_map
instances-IsCounts (leaf s) = (omega arith, omega arith, tt)
instances-IsCounts (parent s (child ps n)) = vector-IsCounts n ps [] tt

total-below : (s lo : ℕ) (m : Counts) → s < lo → IsCounts lo m → total s m ≡ 0
unfolding total
total-below s lo [] lt w = refl
total-below s lo (x ∷ xs) lt w =
    let ne : (s == x.0) ≡ false = ground (arith, lt, w.0) in
    let rest = total-below s (x.0 + 1) xs (omega (arith, lt, w.0)) w.2 in
    rw ne (omega (arith, rest))

pub count_at-total :
    (s lo : ℕ) (m : Counts) → IsCounts lo m → (count_at s m ≡ total s m) × (total s m < word)
unfolding total
count_at-total s lo [] w = (refl, omega arith)
count_at-total s lo (x ∷ xs) w = elim (Bool-cases (s == x.0)) [
  | inl p ↦
      let same : s ≡ x.0 = ground (arith, p) in
      let rest = total-below s (x.0 + 1) xs (omega (arith, same)) w.2 in
      let small = w.1 in rw p (omega (arith, rest), omega (arith, rest, small))
  | inr p ↦
      let (e, lt) = count_at-total s (x.0 + 1) xs w.2 in rw p (omega (arith, e), omega (arith, lt))
]

-- `getNumberOfInstancesMap` gives each symbol the number of times it comes in what the pattern stands for,
-- as a word.
pub count_at-get_number_of_instances_map :
    (s : ℕ) (p : CompressionPattern)
    → count_at s (get_number_of_instances_map p) ≡ occurrences s (expand p) % word
count_at-get_number_of_instances_map s p =
    let m = get_number_of_instances_map p in
    let (e, lt) = count_at-total s 0 m (instances-IsCounts p) in
    e ∙ sym (mod-eq_of_lt lt) ∙ total-instances s p
