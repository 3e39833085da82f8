-- ===== src/Libcam/Dependence/Tests.antt =====
-- Runs of the analysis of two entries, and its theorems at concrete entries.
use cam_alias_checker.Prelude.{
  ℕ, ◌-◌, ◌^◌, ◌<◌, ◌≡◌, arith, ◌↔◌, refl, true, false, ◌&&◌, ◌||◌, some, [], ◌∷◌,
}
use cam_alias_checker.Libcam.DynamicGcd.{
  dynamic_gcd, ordered_gcd, euclid_gcd, gcd_from, delta, clash, euclid_lcm,
}
use cam_alias_checker.Libcam.MemSet.{MemSetEntry, Uninit, entry, get_num_instances, get_normalised}
use cam_alias_checker.Libcam.Dependence.{
  any_read, any_write, is_alias_brute_force, is_alias, do_brute_force_alias_analysis, contains,
  build_instr_pair_menu,
}
use cam_alias_checker.Libcam.Dependence.BruteForce.{HasByte, IsWithin, is_alias_brute_force_lem}
use cam_alias_checker.Libcam.Dependence.Menu.{has_pair, in_trace, has_pair-build_instr_pair_menu}

abbrev u : Uninit
u = record { iteration_number = 0; effective_instr_id = 0 }

-- writes of 4 bytes at 0, 20, 40, 60 and reads at 4, 32, 60
abbrev writes : MemSetEntry
writes = entry u 0 20 4 0 3

abbrev reads : MemSetEntry
reads = entry u 4 28 4 0 2

writes-IsWithin : IsWithin writes
writes-IsWithin = record { some_bytes = omega arith; no_wrap = λ i lt. omega (arith, lt) }

reads-IsWithin : IsWithin reads
reads-IsWithin = record { some_bytes = omega arith; no_wrap = λ i lt. omega (arith, lt) }

is_alias_brute_force_lem_example : (is_alias_brute_force writes reads ≡ true) ↔ (
    (b : ℕ) × (i : ℕ) × (j : ℕ) × (i < get_num_instances writes)
    × (j < get_num_instances reads)
    × HasByte writes i b
    × HasByte reads j b)
is_alias_brute_force_lem_example =
    is_alias_brute_force_lem writes reads writes-IsWithin reads-IsWithin

-- Both use address 60, which `isAlias` misses: the wrong offset of `dynamic_gcd` lies behind the end.
missed_alias : (is_alias_brute_force writes reads ≡ true) × (is_alias u writes reads ≡ some false)
unfolding is_alias_brute_force is_alias any_read any_write dynamic_gcd ordered_gcd euclid_gcd
    gcd_from delta clash euclid_lcm get_normalised
missed_alias = (refl, refl)

one_clash : do_brute_force_alias_analysis u writes reads ≡ (60, 3, 60, 2) ∷ []
unfolding do_brute_force_alias_analysis
one_clash = refl

-- One address against a run that passes it backwards, as its third access: the instance should be 2.
backwards :
    do_brute_force_alias_analysis u (entry u 8 0 4 0 0) (entry u 16 (2 ^ 64 - 4) 4 0 4)
    ≡ (8, 0, 8, 0) ∷ []
unfolding do_brute_force_alias_analysis
backwards = refl

has_pair-build_instr_pair_menu_example :
    let (rw_pairs, ww_pairs) = build_instr_pair_menu (1 ∷ 2 ∷ []) [] (1 ∷ []) (2 ∷ []) in
    (has_pair rw_pairs 2 1 ≡ (
      contains (2 ∷ []) 2
      && contains (1 ∷ []) 1
      && in_trace (1 ∷ 2 ∷ []) [] 2
      && in_trace (1 ∷ 2 ∷ []) [] 1))
    × ((has_pair ww_pairs 2 1 || has_pair ww_pairs 1 2) ≡ (
        contains (2 ∷ []) 2
        && contains (2 ∷ []) 1
        && in_trace (1 ∷ 2 ∷ []) [] 2
        && in_trace (1 ∷ 2 ∷ []) [] 1))
has_pair-build_instr_pair_menu_example =
    has_pair-build_instr_pair_menu (1 ∷ 2 ∷ []) [] (1 ∷ []) (2 ∷ []) 2 1
