-- ===== src/Libcam/CallTrace/Tests.antt =====
-- The theorems on calls at calls with one or two groups.
use cam_alias_checker.Prelude.{ℕ, ◌%◌, ◌≤◌, ◌≡◌, refl, true, false, some, [], ◌∷◌, ◌++◌, arith}
use cam_alias_checker.Libcam.Machine.{word}
use cam_alias_checker.Libcam.CompressionPattern.{
  CompressionPattern, leaf, parent, child, no_more, more,
}
use cam_alias_checker.Libcam.CompressionPattern.Count.{occurrences}
use cam_alias_checker.Libcam.CompressionPattern.Ordered.{count_at}
use cam_alias_checker.Libcam.Repetition.{remove_first_instance, remove_last_instance}
use cam_alias_checker.Libcam.Repetition.Lookup.{covers}
use cam_alias_checker.Libcam.Repetition.Built.Lookup.{ArePatterns, data_in}
use cam_alias_checker.Libcam.CallTrace.{
  CallTraceInstanceGroup, CallTraceCall, lut_input, build_call_lut, get_instance_group,
  add_call_trace_call,
}
use cam_alias_checker.Libcam.CallTrace.Flow.{flow_at, AreGroups}
use cam_alias_checker.Libcam.CallTrace.Once.{Follows}
use cam_alias_checker.Libcam.CallTrace.Merge.{add_call_trace_call-flow}
use cam_alias_checker.Libcam.CallTrace.Holders.{holders}
use cam_alias_checker.Libcam.CallTrace.Numbers.{expand_flow, get_instance_group-build_call_lut}

-- three times the instructions 8 and 9
abbrev thrice : CompressionPattern
thrice = parent 0 (child (more (leaf 8) (more (leaf 9) no_more)) 3)

abbrev early : CallTraceInstanceGroup
early = record {
  repetitions = (0, 2) ∷ (7, 8) ∷ [];
  control_flow = leaf 8 ∷ [];
  num_instances_lut = [];
}

abbrev late : CallTraceInstanceGroup
late = record {
  repetitions = (3, 5) ∷ [];
  control_flow = leaf 8 ∷ thrice ∷ [];
  num_instances_lut = [];
}

abbrev call : CallTraceCall
call = record { call_instances = early ∷ late ∷ []; lut = [] }

call-ArePatterns : ArePatterns (lut_input 0 call.call_instances)
unfolding lut_input
call-ArePatterns = omega arith

in_late : data_in 4 (lut_input 0 call.call_instances) ≡ some 1
unfolding data_in covers lut_input
in_late = refl

get_instance_group-build_call_lut_example :
    (h : CallTraceInstanceGroup) × (get_instance_group (build_call_lut call) 4 ≡ some h)
    × (h.repetitions ≡ (3, 5) ∷ [])
    × (h.control_flow ≡ leaf 8 ∷ thrice ∷ [])
    × (count_at 8 h.num_instances_lut ≡ occurrences 8 (expand_flow (leaf 8 ∷ thrice ∷ [])) % word)
get_instance_group-build_call_lut_example =
    get_instance_group-build_call_lut call 4 1 8 late refl call-ArePatterns in_late refl

-- A call whose last instance goes on in the first instance of another call, which loses it.
abbrev before : CallTraceCall
before = record { call_instances = early ∷ []; lut = [] }

abbrev after : CallTraceCall
after = record {
  call_instances =
      record { repetitions = (8, 10) ∷ []; control_flow = leaf 9 ∷ []; num_instances_lut = [] }
      ∷ [];
  lut = [];
}

argument_changes :
    add_call_trace_call before after
    ≡ some (
      record {
        call_instances =
            record {
              repetitions = (0, 2) ∷ (7, 7) ∷ [];
              control_flow = leaf 8 ∷ [];
              num_instances_lut = [];
            }
            ∷ record {
              repetitions = (8, 8) ∷ [];
              control_flow = leaf 8 ∷ leaf 9 ∷ [];
              num_instances_lut = [];
            }
            ∷ record {
              repetitions = (9, 10) ∷ [];
              control_flow = leaf 9 ∷ [];
              num_instances_lut = [];
            }
            ∷ [];
        lut = [];
      },
      record {
        call_instances =
            record {
              repetitions = (9, 10) ∷ [];
              control_flow = leaf 9 ∷ [];
              num_instances_lut = [];
            }
            ∷ [];
        lut = [];
      },
    )
unfolding add_call_trace_call remove_last_instance remove_first_instance
argument_changes = refl

in_one :
    (n : ℕ) → covers n ((0, 2) ∷ (7, 8) ∷ []) ≡ true → (covers n ((3, 5) ∷ []) ≡ false) × Unit {0}
unfolding covers
in_one n h = (ground (arith, h), tt)

two-AreGroups : AreGroups (early ∷ late ∷ [])
unfolding covers
two-AreGroups = (
  record {
    some_range = λ e. absurd (ground (arith, e));
    pattern_order = omega arith;
    bounded = omega arith;
  },
  in_one,
  (
    record {
      some_range = λ e. absurd (ground (arith, e));
      pattern_order = omega arith;
      bounded = omega arith;
    },
    λ n h. tt,
    tt,
  ),
)

after-AreGroups : AreGroups after.call_instances
after-AreGroups = (
  record {
    some_range = λ e. absurd (ground (arith, e));
    pattern_order = omega arith;
    bounded = omega arith;
  },
  λ n h. tt,
  tt,
)

call-Follows : Follows call.call_instances after.call_instances
unfolding covers
call-Follows n k h h' = ground (arith, h, h')

add_call_trace_call-flow_example :
    (c' : CallTraceCall) × (d' : CallTraceCall) × (add_call_trace_call call after ≡ some (c', d'))
    × ((n : ℕ)
        → flow_at n c'.call_instances
          ≡ flow_at n call.call_instances ++ flow_at n after.call_instances)
    × ((n : ℕ) → holders n c'.call_instances ≤ 1)
add_call_trace_call-flow_example =
    add_call_trace_call-flow call after two-AreGroups after-AreGroups call-Follows
