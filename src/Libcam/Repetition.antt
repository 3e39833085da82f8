-- ===== src/Libcam/Repetition.antt =====
-- libcam/src/RepetitionPattern.{h,cpp}: the instances at which something is repeated, as ranges in a
-- vector, and the lookup of data by instance. A function that reads an end of an empty vector is
-- not defined there: it has the result `none`.
pub mod Lookup
pub mod Instances
pub mod Built
mod Tests
use cam_alias_checker.Prelude.{
  ℕ, zero, suc, ◌+◌, ◌%◌, Bool, true, false, not, ◌&&◌, ◌||◌, Option, none, some, List, [], ◌∷◌,
  ◌++◌, length, ltb, ◌==◌, if◌then◌else◌, ◌>>=◌,
}
use cam_alias_checker.Libcam.Machine.{word, sub_word}

abbrev pub RepetitionPattern : Type 0
RepetitionPattern = List (ℕ × ℕ)

abbrev pub add_pair : (start end : ℕ) → RepetitionPattern → RepetitionPattern
add_pair s e rs = rs ++ (s, e) ∷ []

abbrev pub num_ranges : RepetitionPattern → ℕ
num_ranges rs = length rs

abbrev pub clear : RepetitionPattern → RepetitionPattern
clear rs = []

abbrev pub empty : RepetitionPattern → Bool
empty rs = length rs == 0

unfoldable pub remove_first_instance : RepetitionPattern → Option RepetitionPattern
remove_first_instance [] = none
remove_first_instance (r ∷ rs) = some (if r.0 == r.1 then rs else ((r.0 + 1) % word, r.1) ∷ rs)

unfoldable pub remove_last_instance : RepetitionPattern → Option RepetitionPattern
remove_last_instance [] = none
remove_last_instance (r ∷ []) = some (if r.0 == r.1 then [] else (r.0, sub_word r.1 1) ∷ [])
remove_last_instance (r ∷ q ∷ rs) = do left ← remove_last_instance (q ∷ rs); some (r ∷ left)

abbrev pub delete_first_instance : RepetitionPattern → Option RepetitionPattern
delete_first_instance = remove_first_instance

abbrev pub delete_last_instance : RepetitionPattern → Option RepetitionPattern
delete_last_instance = remove_last_instance

abbrev pub get_first_instance : RepetitionPattern → Option ℕ
get_first_instance [] = none
get_first_instance (r ∷ rs) = some r.0

abbrev pub get_last_instance : RepetitionPattern → Option ℕ
get_last_instance [] = none
get_last_instance (r ∷ []) = some r.1
get_last_instance (r ∷ q ∷ rs) = get_last_instance (q ∷ rs)

abbrev pub is_singleton : RepetitionPattern → Bool
is_singleton [] = false
is_singleton (r ∷ []) = r.0 == r.1
is_singleton (r ∷ q ∷ rs) = false

-- The library's `lower_bound` under `val < r.second`: the first range that does not compare, if there
-- is one. It is not defined unless the ranges that compare all stand in front.
unfoldable pub none_compare : (val : ℕ) → RepetitionPattern → Bool
none_compare val [] = true
none_compare val (r ∷ rs) = not (ltb val r.1) && none_compare val rs

unfoldable pub lower_bound_second : (val : ℕ) → RepetitionPattern → Option (Option (ℕ × ℕ))
unfolding none_compare
lower_bound_second val [] = some none
lower_bound_second val (r ∷ rs) =
    let rest = lower_bound_second val rs in
    if ltb val r.1 then rest else if none_compare val rs then some (some r) else none

abbrev pub reaches : Option (ℕ × ℕ) → (second : ℕ) → Bool
reaches none s = false
reaches (some r) s = ltb r.0 s

unfoldable pub overlaps_with : RepetitionPattern → (other : RepetitionPattern) → Option Bool
unfolding lower_bound_second
overlaps_with rs [] = some false
overlaps_with rs (o ∷ os) = do
  it ← lower_bound_second o.0 rs
  rest ← overlaps_with rs os
  some (reaches it o.1 || rest)

-- `RepetitionPatternSortedLookup`: a range with its data, and a set of them in the order of the ends
abbrev pub Range {ℓ} : Type ℓ → Type ℓ
Range D = ℕ × ℕ × D

abbrev pub SortedLookup {ℓ} : Type ℓ → Type ℓ
SortedLookup D = List (Range D)

module _ {ℓ} {D : Type ℓ} where
  -- The library's insertion to an ordered set, which keeps what has an equal end.
  unfoldable pub insert_range : Range D → SortedLookup D → SortedLookup D
  insert_range t [] = t ∷ []
  insert_range t (x ∷ xs) =
      let rest = insert_range t xs in
      if ltb t.1 x.1 then t ∷ x ∷ xs else if ltb x.1 t.1 then x ∷ rest else x ∷ xs

  unfoldable pub insert_to_lut : RepetitionPattern → D → SortedLookup D → SortedLookup D
  unfolding insert_range
  insert_to_lut [] d lut = lut
  insert_to_lut (r ∷ rs) d lut = insert_to_lut rs d (insert_range (r.0, r.1, d) lut)

  abbrev pub clear_lut : SortedLookup D → SortedLookup D
  clear_lut lut = []

  -- the first range that ends at `n` or later, if `n` is in it
  unfoldable pub lookup_data : (n : ℕ) → SortedLookup D → Option (Range D)
  lookup_data n [] = none
  lookup_data n (x ∷ xs) =
      let rest = lookup_data n xs in if ltb x.1 n then rest else if ltb n x.0 then none else some x

  abbrev pub get_data_from_iterator : Range D → D
  get_data_from_iterator t = t.2
