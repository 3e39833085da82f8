-- ===== src/Libcam/Repetition/Tests.antt =====
-- The theorems on repetition patterns at short patterns.
use cam_alias_checker.Prelude.{
  ℕ, ◌≡◌, refl, ◌++◌, Bool, true, false, some, List, [], ◌∷◌, arith, if◌then◌else◌,
}
use cam_alias_checker.Libcam.Repetition.{
  RepetitionPattern, SortedLookup, insert_to_lut, remove_first_instance, remove_last_instance,
  get_first_instance, get_last_instance, overlaps_with, lower_bound_second,
}
use cam_alias_checker.Libcam.Repetition.Lookup.{covers, IsLut, data_at, data_at-insert_to_lut}
use cam_alias_checker.Libcam.Repetition.Instances.{instances, remove_instance-instances}
use cam_alias_checker.Libcam.Repetition.Built.{begin, build_lut, lookup_built}
use cam_alias_checker.Libcam.Repetition.Built.Lookup.{lookup_built-build_lut, data_in}
use cam_alias_checker.Libcam.Repetition.Built.Walk.{walk, rounds, ranges_of, walk-begin}

abbrev ranges : RepetitionPattern
ranges = (3, 5) ∷ (9, 9) ∷ []

abbrev others : SortedLookup Bool
others = (0, 2, true) ∷ (7, 8, true) ∷ (20, 30, true) ∷ []

data_at-insert_to_lut_example :
    IsLut 0 (insert_to_lut ranges false others)
    × (data_at 4 (insert_to_lut ranges false others)
        ≡ (if covers 4 ranges then some false else data_at 4 others))
data_at-insert_to_lut_example =
    data_at-insert_to_lut 4 0 false ranges others (omega arith) (omega arith) (omega arith)

remove_instance-instances_example :
    ((f : ℕ) × (a : RepetitionPattern) × (get_first_instance ranges ≡ some f)
      × (remove_first_instance ranges ≡ some a)
      × (instances ranges ≡ f ∷ instances a))
    × (l : ℕ) × (b : RepetitionPattern) × (get_last_instance ranges ≡ some l)
    × (remove_last_instance ranges ≡ some b)
    × (instances ranges ≡ instances b ++ l ∷ [])
remove_instance-instances_example =
    remove_instance-instances 0 (3, 5) ((9, 9) ∷ []) (omega arith) (omega arith)

-- two patterns whose ranges alternate
abbrev patterns : List (RepetitionPattern × Bool)
patterns = (ranges, true) ∷ ((0, 2) ∷ (7, 8) ∷ [], false) ∷ []

in_first : data_in 4 patterns ≡ some true
unfolding data_in covers
in_first = refl

lookup_built-build_lut_example : lookup_built 4 (build_lut patterns []) ≡ some true
lookup_built-build_lut_example = lookup_built-build_lut 4 patterns true (omega arith) in_first

walk-begin_example :
    walk (rounds others) others (begin others) ≡ some (instances (ranges_of others))
walk-begin_example = walk-begin others (omega arith)

-- A pattern overlaps with a part of itself, and the answer is no: the comparison is the wrong way
-- round.
missed_overlap : overlaps_with ((10, 20) ∷ []) ((12, 15) ∷ []) ≡ some false
unfolding overlaps_with lower_bound_second
missed_overlap = refl

-- A pattern overlaps with a range behind its own, by the answer.
false_overlap : overlaps_with ((10, 12) ∷ []) ((13, 14) ∷ []) ≡ some true
unfolding overlaps_with lower_bound_second
false_overlap = refl
