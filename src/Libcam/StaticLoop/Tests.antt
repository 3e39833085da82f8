-- ===== src/Libcam/StaticLoop/Tests.antt =====
-- The theorems on invocations at invocations with one or two groups of iterations.
use cam_alias_checker.Prelude.{ℕ, ◌≤◌, ◌≡◌, refl, ◌>>=◌, none, some, [], ◌∷◌, ◌++◌, arith}
use cam_alias_checker.Libcam.CompressionPattern.{
  CompressionPattern, leaf, parent, child, no_more, more, get_number_of_instances_map,
}
use cam_alias_checker.Libcam.CompressionPattern.Count.{occurrences, expand}
use cam_alias_checker.Libcam.Repetition.Lookup.{covers}
use cam_alias_checker.Libcam.Repetition.Built.{range_map}
use cam_alias_checker.Libcam.Repetition.Built.Lookup.{ArePatterns, data_in}
use cam_alias_checker.Libcam.CallTrace.{lut_input, count_all}
use cam_alias_checker.Libcam.CallTrace.Numbers.{expand_flow}
use cam_alias_checker.Libcam.CallTrace.Holders.{holders}
use cam_alias_checker.Libcam.CallTrace.Once.{Follows}
use cam_alias_checker.Libcam.CallTrace.Flow.{flow_at, AreGroups}
use cam_alias_checker.Libcam.StaticLoop.{
  IterationGroupCfc, InvocationGroupCfc, clear_invocation, merge_iteration_info, precompute,
  get_iteration_number, get_num_instances, build_instances, entries_at,
}
use cam_alias_checker.Libcam.StaticLoop.Iterations.{laps_by}
use cam_alias_checker.Libcam.StaticLoop.Precompute.{
  AreReady, run_through, get_iteration_number-precompute,
}
use cam_alias_checker.Libcam.StaticLoop.Totals.{get_num_instances-precompute}
use cam_alias_checker.Libcam.StaticLoop.Merge.{merge_iteration_info-flow}

-- three times the instructions 8 and 9
abbrev thrice : CompressionPattern
thrice = parent 0 (child (more (leaf 8) (more (leaf 9) no_more)) 3)

abbrev once : IterationGroupCfc
once = record {
  repetitions = (0, 2) ∷ (7, 8) ∷ [];
  control_flow = leaf 8 ∷ [];
  num_instances_lut = [];
}

abbrev often : IterationGroupCfc
often = record {
  repetitions = (3, 5) ∷ [];
  control_flow = leaf 8 ∷ thrice ∷ [];
  num_instances_lut = [];
}

-- Iteration 6 has no group.
abbrev invocation : InvocationGroupCfc
invocation = record {
  iterations = once ∷ often ∷ [];
  invocation_instances_lut = [];
  instruction_instance_lut = [];
  iter_lut = [];
}

invocation-ArePatterns : ArePatterns (lut_input 0 invocation.iterations)
unfolding lut_input
invocation-ArePatterns = omega arith

invocation-AreReady : AreReady 9 invocation.iterations
unfolding count_all get_number_of_instances_map
invocation-AreReady = (
  record { end_below = omega arith; come = omega arith },
  (record { end_below = omega arith; come = omega arith }, tt),
)

run_of_8 :
    run_through 8 invocation.iterations 9
    ≡ 0 ∷ 1 ∷ 2 ∷ 3 ∷ 3 ∷ 3 ∷ 3 ∷ 4 ∷ 4 ∷ 4 ∷ 4 ∷ 5 ∷ 5 ∷ 5 ∷ 5 ∷ 7 ∷ 8 ∷ []
unfolding laps_by data_in covers lut_input occurrences expand_flow expand
run_of_8 = refl

get_iteration_number-precompute_example :
    (v' : InvocationGroupCfc) × (precompute invocation ≡ some v')
    × (get_iteration_number v' 8 9 ≡ some 4)
unfolding laps_by data_in covers lut_input occurrences expand_flow expand
get_iteration_number-precompute_example =
    get_iteration_number-precompute invocation 8 9 9 refl invocation-ArePatterns invocation-AreReady
      (omega arith) (omega arith) (omega arith)

get_num_instances-precompute_example :
    (v' : InvocationGroupCfc) × (precompute invocation ≡ some v')
    × ((get_num_instances v' 8).0 ≡ 17)
unfolding laps_by data_in covers lut_input occurrences expand_flow expand
get_num_instances-precompute_example =
    get_num_instances-precompute invocation 8 9 refl invocation-ArePatterns invocation-AreReady
      (omega arith) (omega arith)

-- The entries of the instruction 8: the iterations 0 to 2, 3 to 5, and 7 and 8.
entries_of_8 :
    (do v ← precompute invocation; some (entries_at 8 v.instruction_instance_lut))
    ≡ some ((0, 2, (0, 1)) ∷ (3, 14, (3, 4)) ∷ (15, 16, (7, 1)) ∷ [])
unfolding precompute range_map count_all get_number_of_instances_map lut_input build_instances
entries_of_8 = refl

-- The last iteration of `earlier` goes on in the first one of `later`, which loses it.
abbrev earlier : InvocationGroupCfc
earlier = record invocation { iterations = once ∷ [] }

abbrev later : InvocationGroupCfc
later = record invocation {
  iterations =
      record { repetitions = (8, 10) ∷ []; control_flow = leaf 9 ∷ []; num_instances_lut = [] }
      ∷ [];
}

later-AreGroups : AreGroups later.iterations
later-AreGroups = (
  record {
    some_range = λ e. absurd (ground (arith, e));
    pattern_order = omega arith;
    bounded = omega arith;
  },
  λ n h. tt,
  tt,
)

earlier-AreGroups : AreGroups earlier.iterations
earlier-AreGroups = (
  record {
    some_range = λ e. absurd (ground (arith, e));
    pattern_order = omega arith;
    bounded = omega arith;
  },
  λ n h. tt,
  tt,
)

earlier-Follows : Follows earlier.iterations later.iterations
unfolding covers
earlier-Follows n k h h' = ground (arith, h, h')

merge_iteration_info-flow_example :
    (v : InvocationGroupCfc) × (w : InvocationGroupCfc) × (merge_iteration_info earlier later
      ≡ some (v, w))
    × ((n : ℕ)
        → flow_at n v.iterations ≡ flow_at n earlier.iterations ++ flow_at n later.iterations)
    × ((n : ℕ) → holders n v.iterations ≤ 1)
merge_iteration_info-flow_example =
    merge_iteration_info-flow earlier later earlier-AreGroups later-AreGroups earlier-Follows refl

-- An invocation with no iterations cannot be merged into one that has some.
merged_with_none : merge_iteration_info earlier (clear_invocation later) ≡ none
unfolding merge_iteration_info
merged_with_none = refl
