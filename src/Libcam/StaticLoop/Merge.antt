-- ===== src/Libcam/StaticLoop/Merge.antt =====
-- `mergeIterationInfo` of libcam/src/StaticLoopRec.cpp joins the control flow of two invocations.
use cam_alias_checker.Prelude.{
  ℕ, ◌≤◌, ◌≡◌, refl, false, some, List, [], ◌∷◌, ◌++◌, length, ◌==◌, arith,
}
use cam_alias_checker.Libcam.CallTrace.Flow.{flow_at, AreGroups}
use cam_alias_checker.Libcam.CallTrace.Once.{Follows}
use cam_alias_checker.Libcam.CallTrace.Merge.{merge_groups-flow}
use cam_alias_checker.Libcam.CallTrace.Holders.{holders, AreGroups-holders}
use cam_alias_checker.Libcam.StaticLoop.{
  IterationGroupCfc, InvocationGroupCfc, merge_iteration_info,
}

-- Where the groups of each of two invocations have iterations, in order, and no two groups of an
-- invocation have one in common, no iteration of the first is behind one of the second, and the second
-- has iterations, `mergeIterationInfo` succeeds, and then no iteration is in two groups of the first, and
-- each has the control flow that it had followed by that which it has in the second, also where the last
-- iteration of the one is the first of the other.
pub merge_iteration_info-flow :
    (v w : InvocationGroupCfc)
    → AreGroups v.iterations
    → AreGroups w.iterations
    → Follows v.iterations w.iterations
    → (length w.iterations == 0) ≡ false
    → (v' : InvocationGroupCfc) × (w' : InvocationGroupCfc) × (merge_iteration_info v w
        ≡ some (v', w'))
      × ((n : ℕ) → flow_at n v'.iterations ≡ flow_at n v.iterations ++ flow_at n w.iterations)
      × ((n : ℕ) → holders n v'.iterations ≤ 1)
unfolding merge_iteration_info
merge_iteration_info-flow v w a b f some_new = go v.iterations w.iterations a b f some_new
  where
    go :
        (gs hs : List IterationGroupCfc)
        → AreGroups gs
        → AreGroups hs
        → Follows gs hs
        → (length hs == 0) ≡ false
        → (v' : InvocationGroupCfc) × (w' : InvocationGroupCfc) × (merge_iteration_info
              (record v { iterations = gs })
              (record w { iterations = hs })
            ≡ some (v', w'))
          × ((n : ℕ) → flow_at n v'.iterations ≡ flow_at n gs ++ flow_at n hs)
          × ((n : ℕ) → holders n v'.iterations ≤ 1)
    go gs [] a b f some_new = absurd (ground (arith, some_new))
    go [] (h ∷ hs) a b f some_new = (
      record v { iterations = h ∷ hs },
      record w { iterations = h ∷ hs },
      refl,
      λ n. refl,
      λ n. AreGroups-holders n (h ∷ hs) b,
    )
    go (g ∷ gs) (h ∷ hs) a b f some_new =
        let full : (length (g ∷ gs) == 0) ≡ false = ground arith in
        let (gs', hs', run, flow, once) = merge_groups-flow g h gs hs a b f in
        (
          record v { iterations = gs' },
          record w { iterations = hs' },
          rw (full, run) refl,
          flow,
          once,
        )
