-- ===== src/Libcam/Repetition/Built.antt =====
-- `RepetitionPatternLookup` of libcam/src/RepetitionPattern.{h,cpp}: a vector of ranges with their data, in
-- order, which is built from patterns. A pointer to data is a value of the type `D`. What reads behind
-- the end of the vector is not defined there: it has the result `none`.
pub mod Lookup
pub mod Each
pub mod Walk
use cam_alias_checker.Prelude.{
  ℕ, zero, suc, ◌+◌, ◌%◌, Bool, true, false, not, ◌&&◌, ◌||◌, Option, none, some, List, [], ◌∷◌,
  ◌++◌, length, get_elem?, ltb, ◌==◌, if◌then◌else◌, ◌>>=◌,
}
use cam_alias_checker.Libcam.Machine.{word}
use cam_alias_checker.Libcam.Repetition.{RepetitionPattern, Range}

-- `<` on pairs
abbrev pub before : (s e s' e' : ℕ) → Bool
before s e s' e' = ltb s s' || (s == s') && ltb e e'

module _ {ℓ} {D : Type ℓ} where
  -- `rangeMap[pair(start, end)] = data`, in a map in the order of the pairs
  unfoldable pub assign_range : Range D → List (Range D) → List (Range D)
  assign_range t [] = t ∷ []
  assign_range t (x ∷ xs) =
      let rest = assign_range t xs in
      if before t.0 t.1 x.0 x.1
      then t ∷ x ∷ xs
      else if before x.0 x.1 t.0 t.1
      then x ∷ rest
      else t ∷ xs

  unfoldable pub assign_pattern : RepetitionPattern → D → List (Range D) → List (Range D)
  unfolding assign_range
  assign_pattern [] d m = m
  assign_pattern (r ∷ rs) d m = assign_pattern rs d (assign_range (r.0, r.1, d) m)

  unfoldable pub range_map : List (RepetitionPattern × D) → List (Range D) → List (Range D)
  unfolding assign_pattern
  range_map [] m = m
  range_map (p ∷ ps) m = range_map ps (assign_pattern p.0 p.1 m)

  -- The ranges come behind those that the vector has.
  abbrev pub build_lut : List (RepetitionPattern × D) → List (Range D) → List (Range D)
  build_lut ps lut = lut ++ range_map ps []

  abbrev pub clear_built : List (Range D) → List (Range D)
  clear_built lut = []

  unfoldable pub last_end : List (Range D) → Option ℕ
  last_end [] = none
  last_end (x ∷ []) = some x.1
  last_end (x ∷ y ∷ xs) = last_end (y ∷ xs)

  -- The library's `lower_bound` under `get<1>(entry) < val`: the first range that does not compare, if there
  -- is one. It is not defined unless the ranges that compare all stand in front.
  unfoldable pub all_reach : (val : ℕ) → List (Range D) → Bool
  all_reach val [] = true
  all_reach val (x ∷ xs) = not (ltb x.1 val) && all_reach val xs

  unfoldable pub first_reaching : (val : ℕ) → List (Range D) → Option (Option (Range D))
  unfolding all_reach
  first_reaching val [] = some none
  first_reaching val (x ∷ xs) =
      let rest = first_reaching val xs in
      if ltb x.1 val then rest else if all_reach val xs then some (some x) else none

  -- `lookupData`, which does not ask whether `n` is in the range
  abbrev pub lookup_built : (n : ℕ) → List (Range D) → Option D
  lookup_built n lut = do o ← first_reaching n lut; t ← o; some t.2

  -- An iterator is a place in the vector and an instance.
  abbrev pub end_of : List (Range D) → ℕ × ℕ
  end_of lut = (length lut, 0)

  -- the first instance at a place, which may be the end
  abbrev pub start_at : List (Range D) → ℕ → ℕ × ℕ
  start_at lut i = elim (get_elem? lut i) [ none ↦ end_of lut | some x ↦ (i, x.0) ]

  abbrev pub begin : List (Range D) → ℕ × ℕ
  begin lut = start_at lut 0

  abbrev pub next_entry : List (Range D) → ℕ × ℕ → ℕ × ℕ
  next_entry lut it = start_at lut (it.0 + 1)

  unfoldable pub next : List (Range D) → ℕ × ℕ → Option (ℕ × ℕ)
  next lut it = do
    x ← get_elem? lut it.0
    some (if it.1 == x.1 then next_entry lut it else (it.0, (it.1 + 1) % word))

  abbrev pub get_data_from_ii : List (Range D) → ℕ × ℕ → Option D
  get_data_from_ii lut it = do x ← get_elem? lut it.0; some x.2

  abbrev pub get_start_from_ii : List (Range D) → ℕ × ℕ → Option ℕ
  get_start_from_ii lut it = do x ← get_elem? lut it.0; some x.0

  abbrev pub get_end_from_ii : List (Range D) → ℕ × ℕ → Option ℕ
  get_end_from_ii lut it = do x ← get_elem? lut it.0; some x.1

abbrev pub get_range_num_from_ii : ℕ × ℕ → ℕ
get_range_num_from_ii it = it.1
