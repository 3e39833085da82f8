-- ===== src/Libcam/CallTrace/Merge.antt =====
-- `addCallTraceCall` of libcam/src/CallTrace.cpp joins the control flow of two calls.
use cam_alias_checker.Prelude.{
  ℕ, ◌≤◌, ◌≡◌, refl, ap, sym, ◌∙◌, true, false, some, List, [], ◌∷◌, ◌++◌, append_assoc, length,
  get_elem?, ◌==◌, arith, Bool-cases, inl, inr,
}
use cam_alias_checker.Libcam.CallTrace.{
  CallTraceInstanceGroup, CallTraceCall, max_existing, min_new, join_at, without_joined, left_over,
  merge_groups, add_call_trace_call,
}
use cam_alias_checker.Libcam.CallTrace.Flow.{
  last_covers, first_covers, flow_at, AreGroups, flow_at-append, AreGroups-Others, AreGroups-at,
}
use cam_alias_checker.Libcam.CallTrace.Holders.{
  holders, holders-append, holders_at, AreGroups-holders,
}
use cam_alias_checker.Libcam.CallTrace.Extremes.{max_existing-NoneBehind, min_new-NoneBefore}
use cam_alias_checker.Libcam.CallTrace.Taken.{without_joined-flow, left_over-runs}
use cam_alias_checker.Libcam.CallTrace.Once.{Follows, shared_instance, joined_once, apart_once}
use cam_alias_checker.Libcam.CallTrace.Join.{only, join_at-flow}
use cam_alias_checker.Libcam.CallTrace.Choice.{max_existing-Chosen, min_new-Chosen}

-- The run of the branch in which an instance is joined, from its calls.
merge_groups-runs :
    (gs hs gs' hs' more : List CallTraceInstanceGroup) (i j l m : ℕ) (q : CallTraceInstanceGroup)
    → max_existing gs ≡ some (i, l)
    → min_new hs ≡ some (j, m)
    → (l == m) ≡ true
    → get_elem? hs j ≡ some q
    → join_at i q.control_flow gs ≡ some gs'
    → without_joined j hs ≡ some more
    → left_over j hs ≡ some hs'
    → merge_groups gs hs ≡ some (gs' ++ more, hs')
unfolding merge_groups
merge_groups-runs gs hs gs' hs' more i j l m q e e' t at join run run' =
    rw (e, e', t, run', run, at, join) refl

-- Two calls of which neither is empty.
pub merge_groups-flow :
    (g h : CallTraceInstanceGroup) (gs hs : List CallTraceInstanceGroup)
    → AreGroups (g ∷ gs)
    → AreGroups (h ∷ hs)
    → Follows (g ∷ gs) (h ∷ hs)
    → (gs' : List CallTraceInstanceGroup) × (hs' : List CallTraceInstanceGroup) × (merge_groups
          (g ∷ gs)
          (h ∷ hs)
        ≡ some (gs', hs'))
      × ((n : ℕ) → flow_at n gs' ≡ flow_at n (g ∷ gs) ++ flow_at n (h ∷ hs))
      × ((n : ℕ) → holders n gs' ≤ 1)
unfolding merge_groups
merge_groups-flow g h gs hs a b f =
    let (i, l, p, e, at, last) = max_existing-Chosen g gs a in
    let (j, m, q, e', at', first) = min_new-Chosen h hs b in
    let w = AreGroups-at j (h ∷ hs) q at' b in
    let u = AreGroups-at i (g ∷ gs) p at a in
    let has_l = last_covers p l u last in
    let has_m = first_covers q m w first in
    let shared = λ (n : ℕ).
      shared_instance (g ∷ gs) (h ∷ hs) l m n f (max_existing-NoneBehind g gs i l a e)
        (min_new-NoneBefore h hs j m b e') (holders_at l i (g ∷ gs) p at has_l)
        (holders_at m j (h ∷ hs) q at' has_m) in
    let ones = λ (n : ℕ). AreGroups-holders n (g ∷ gs) a in
    let ones' = λ (n : ℕ). AreGroups-holders n (h ∷ hs) b in
    elim (Bool-cases (l == m)) [
      | inl t ↦
          let same : m ≡ l = ground (arith, t) in
          let o = AreGroups-Others m j (h ∷ hs) q at' has_m b in
          let (more, run, flow, held') = without_joined-flow j m q (h ∷ hs) at' w first o in
          let (hs', run') = left_over-runs j q (h ∷ hs) at' w in
          let (gs', join, flow', held) = join_at-flow q.control_flow (g ∷ gs) i l p at u last a in
          (
            gs' ++ more,
            hs',
            merge_groups-runs (g ∷ gs) (h ∷ hs) gs' hs' more i j l m q e e' t at' join run run',
            λ n.
                flow_at-append n gs' more
                ∙ ap (λ z. z ++ flow_at n more) (flow' n)
                ∙ append_assoc (flow_at n (g ∷ gs)) (only n l q.control_flow) (flow_at n more)
                ∙ ap (λ z. flow_at n (g ∷ gs) ++ z)
                    (ap (λ z. only n z q.control_flow ++ flow_at n more) (sym same) ∙ sym (flow n)),
            λ n.
                joined_once (g ∷ gs) (h ∷ hs) gs' more l m n (sym same) (ones n) (ones' n)
                  (shared n) (held n) (held' n),
          )
      | inr t ↦ (
        g ∷ gs ++ h ∷ hs,
        h ∷ hs,
        rw (e, e', t) refl,
        λ n. flow_at-append n (g ∷ gs) (h ∷ hs),
        λ n. apart_once (g ∷ gs) (h ∷ hs) l m n t (ones n) (ones' n) (shared n),
      )
    ]

-- Where the groups of each of two calls have instances, in order, and no two groups of a call have one in
-- common, and no instance of the first call is behind one of the second, `addCallTraceCall` succeeds, and
-- then no instance is in two groups of the call, and each has the control flow that it had followed by
-- that which it has in the other call, also where the last instance of the one is the first of the other.
pub add_call_trace_call-flow :
    (c d : CallTraceCall)
    → AreGroups c.call_instances
    → AreGroups d.call_instances
    → Follows c.call_instances d.call_instances
    → (c' : CallTraceCall) × (d' : CallTraceCall) × (add_call_trace_call c d ≡ some (c', d'))
      × ((n : ℕ)
          → flow_at n c'.call_instances ≡ flow_at n c.call_instances ++ flow_at n d.call_instances)
      × ((n : ℕ) → holders n c'.call_instances ≤ 1)
unfolding add_call_trace_call
add_call_trace_call-flow c d a b f = go c.call_instances d.call_instances a b f
  where
    go :
        (gs hs : List CallTraceInstanceGroup)
        → AreGroups gs
        → AreGroups hs
        → Follows gs hs
        → (c' : CallTraceCall) × (d' : CallTraceCall) × (add_call_trace_call
              (record c { call_instances = gs })
              (record d { call_instances = hs })
            ≡ some (c', d'))
          × ((n : ℕ) → flow_at n c'.call_instances ≡ flow_at n gs ++ flow_at n hs)
          × ((n : ℕ) → holders n c'.call_instances ≤ 1)
    go [] hs a b f = (
      record c { call_instances = hs },
      record d { call_instances = hs },
      refl,
      λ n. refl,
      λ n. AreGroups-holders n hs b,
    )
    go (g ∷ gs) [] a b f =
        let full : (length (g ∷ gs) == 0) ≡ false = ground arith in
        (
          record c { call_instances = g ∷ gs ++ [] },
          record d { call_instances = [] },
          rw full refl,
          λ n. flow_at-append n (g ∷ gs) [],
          λ n.
              let parts = holders-append n (g ∷ gs) [] in
              let ones = AreGroups-holders n (g ∷ gs) a in omega (arith, parts, ones),
        )
    go (g ∷ gs) (h ∷ hs) a b f =
        let full : (length (g ∷ gs) == 0) ≡ false = ground arith in
        let full' : (length (h ∷ hs) == 0) ≡ false = ground arith in
        let (gs', hs', run, flow, once) = merge_groups-flow g h gs hs a b f in
        (
          record c { call_instances = gs' },
          record d { call_instances = hs' },
          rw (full, full', run) refl,
          flow,
          once,
        )
