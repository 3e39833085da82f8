-- ===== src/Xanlib/Bitset/Tests.antt =====
-- Runs of the bitset functions, and the theorems at small sets.
use cam_alias_checker.Prelude.{
  ℕ, ◌↔◌, ◌≡◌, refl, sym, ◌∙◌, subst, eq_of_some-eq, true, false, ◌||◌, some, arith, replicate, [],
  ◌∷◌,
}
use cam_alias_checker.Xanlib.Bitset.Ops.{Bitset, new, set_bit, union, is_bit_set, digit}
use cam_alias_checker.Xanlib.Bitset.Queries.{
  are_equal, is_empty, get_count_of_bits_set, get_first_bit_set_in_range,
  get_first_bit_unset_in_range, is_subset_of,
}
use cam_alias_checker.Xanlib.Bitset.Subset.{is_subset_of_lem}
use cam_alias_checker.Xanlib.Bitset.Sound.{IsSound, new-IsSound}
use cam_alias_checker.Xanlib.Bitset.Update.{Becomes, set_bit-Becomes}
use cam_alias_checker.Xanlib.Bitset.Algebra.{union-Becomes}

-- positions 3 of 10
abbrev three : Bitset
three = record {
  words = (false ∷ false ∷ false ∷ true ∷ replicate 60 false) ∷ [];
  length = 10;
  capacity = 1;
}

set_three : set_bit (new 10) 3 ≡ some three
unfolding set_bit new
set_three = refl

three_queries :
    (get_count_of_bits_set three ≡ 1)
    × (get_first_bit_set_in_range three 0 9 ≡ 3)
    × (get_first_bit_set_in_range three 4 9 ≡ 0xffff_ffff)
    × (get_first_bit_unset_in_range three 3 9 ≡ 4)
    × (is_empty three ≡ false)
    × (are_equal three three ≡ true)
    × (is_subset_of three three ≡ true)
unfolding get_count_of_bits_set get_first_bit_set_in_range get_first_bit_unset_in_range is_empty
    are_equal is_subset_of digit
three_queries = (refl, refl, refl, refl, refl, refl, refl)

is_subset_of_lem_example :
    (is_subset_of three (new 10) ≡ true)
    ↔ ((q : ℕ) → is_bit_set three q ≡ true → is_bit_set (new 10) q ≡ true)
is_subset_of_lem_example = is_subset_of_lem three (new 10)

ten-IsSound : IsSound (new 10)
ten-IsSound = (new-IsSound 10 (omega arith)).0

three-IsSound : IsSound three
three-IsSound =
    let (t, e, b, _) = set_bit-Becomes (new 10) 3 ten-IsSound (omega arith) in
    subst IsSound (eq_of_some-eq (sym e ∙ set_three)) b.sound

union-Becomes_example :
    (t : Bitset) × (union (new 10) three ≡ some t)
    × Becomes t (λ q. is_bit_set (new 10) q || is_bit_set three q)
    × (t.length ≡ 10)
unfolding new
union-Becomes_example = union-Becomes (new 10) three ten-IsSound three-IsSound
