-- ===== src/Libcam/CallTrace/Join.antt =====
-- The control flow that comes to a group in `addCallTraceCall` of libcam/src/CallTrace.cpp.
use cam_alias_checker.Prelude.{
  ℕ, ◌≡◌, refl, ap, sym, subst, ◌∙◌, true, false, some, List, [], ◌∷◌, ◌++◌, append-nil, get_elem?,
  set, ◌==◌, if◌then◌else◌, arith, Bool-cases, inl, inr,
}
use mathlib.Core.Option.{some-injective}
use cam_alias_checker.Libcam.CompressionPattern.{CompressionPattern}
use cam_alias_checker.Libcam.Repetition.Lookup.{covers}
use cam_alias_checker.Libcam.CallTrace.{
  CallTraceInstanceGroup, one_instance, is_single_instance, last_instance, extract_last_instance,
  join_at,
}
use cam_alias_checker.Libcam.CallTrace.Ends.{Without}
use cam_alias_checker.Libcam.CallTrace.Holders.{
  one, one_at, holders, holders-append, holders-set, one-Without,
}
use cam_alias_checker.Libcam.CallTrace.Flow.{
  share, flow_at, IsGroup, Others, AreGroups, flow_at-append, share_out, share_in, AreGroups-Others,
  flow_set_same, flow_set_alone, last_of, single_last,
}

-- the control flow `cf` at the instance `l`
abbrev pub only : ℕ → ℕ → List CompressionPattern → List CompressionPattern
only n l cf = if n == l then cf else []

abbrev joined : CallTraceInstanceGroup → List CompressionPattern → CallTraceInstanceGroup
joined g cf = record g { control_flow = g.control_flow ++ cf }

covers_one : (l : ℕ) → covers l ((l, l) ∷ []) ≡ true
unfolding covers
covers_one l = ground arith

covers_other : (n l : ℕ) → (n == l) ≡ false → covers n ((l, l) ∷ []) ≡ false
unfolding covers
covers_other n l ne = ground (arith, ne)

module _ (cf : List CompressionPattern) (gs : List CallTraceInstanceGroup) (i l : ℕ)
    (g : CallTraceInstanceGroup) (at : get_elem? gs i ≡ some g) (v : IsGroup g)
    (last : last_instance g ≡ some l) where
  -- Where the group has no other instance, the control flow comes to the group.
  join_single :
      is_single_instance g ≡ true
      → covers l g.repetitions ≡ true
      → Others i l gs
      → (n : ℕ) → flow_at n (set gs i (joined g cf)) ≡ flow_at n gs ++ only n l cf
  join_single s c o n = elim (Bool-cases (n == l)) [
    | inl t ↦
        let same : n ≡ l = ground (arith, t) in
        let (a, b) = flow_set_alone l i gs g (joined g cf) at o in
        let here : flow_at l (set gs i (joined g cf)) ≡ flow_at l gs ++ cf =
          a ∙ share_in l (joined g cf) c ∙ ap (λ z. z ++ cf) (sym (b ∙ share_in l g c)) in
        rw t (subst (λ m. flow_at m (set gs i (joined g cf)) ≡ flow_at m gs ++ cf) (sym same) here)
    | inr t ↦
        let out = single_last g.repetitions n l s last t in
        rw t (
          flow_set_same n i gs g (joined g cf) at
            (share_out n (joined g cf) out ∙ sym (share_out n g out))
          ∙ sym (append-nil (flow_at n gs)))
  ]

  -- Otherwise it comes to a group of its own.
  join_apart :
      (b : List (ℕ × ℕ))
      → Without l g.repetitions b
      → Others i l gs
      → (n : ℕ)
      → flow_at n (
          set gs i (record g { repetitions = b }) ++ joined (one_instance l g.control_flow) cf ∷ [])
        ≡ flow_at n gs ++ only n l cf
  join_apart b w o n =
      let less : CallTraceInstanceGroup = record g { repetitions = b } in
      let new = joined (one_instance l g.control_flow) cf in
      flow_at-append n (set gs i less) (new ∷ []) ∙ elim (Bool-cases (n == l)) [
        | inl t ↦
            let same : n ≡ l = ground (arith, t) in
            let (x, y) = flow_set_alone l i gs g less at o in
            let here : flow_at l (set gs i less) ++ (share l new ++ []) ≡ flow_at l gs ++ cf =
              ap (λ z. z ++ (share l new ++ [])) (x ∙ share_out l less w.gone)
              ∙ append-nil (share l new)
              ∙ share_in l new (covers_one l)
              ∙ ap (λ z. z ++ cf) (sym (y ∙ share_in l g w.had)) in
            rw t (
              subst (λ m. flow_at m (set gs i less) ++ (share m new ++ []) ≡ flow_at m gs ++ cf)
                (sym same) here)
        | inr t ↦
            let kept : share n less ≡ share n g =
              ap (λ z. if z then g.control_flow else []) (w.same n t) in
            rw t (
              ap (λ z. z ++ (share n new ++ [])) (flow_set_same n i gs g less at kept)
              ∙ ap (λ z. flow_at n gs ++ (z ++ [])) (share_out n new (covers_other n l t)))
      ]

  -- The groups have the same instances.
  apart-holders :
      (b : List (ℕ × ℕ))
      → Without l g.repetitions b
      → (n : ℕ)
      → holders n (
          set gs i (record g { repetitions = b }) ++ joined (one_instance l g.control_flow) cf ∷ [])
        ≡ holders n gs
  apart-holders b w n =
      let less : CallTraceInstanceGroup = record g { repetitions = b } in
      let new = joined (one_instance l g.control_flow) cf in
      let own : one n ((l, l) ∷ []) ≡ one_at n l = elim (Bool-cases (n == l)) [
        | inl t ↦
            let same : n ≡ l = ground (arith, t) in
            rw t (ap (λ z. one z ((l, l) ∷ [])) same ∙ ap (λ z. if z then 1 else 0) (covers_one l))
        | inr t ↦ rw t (ap (λ z. if z then 1 else 0) (covers_other n l t))
      ] in
      let parts = holders-append n (set gs i less) (new ∷ []) in
      let split = holders-set n i gs g less at in
      let without = one-Without n l g.repetitions b w in omega (arith, own, parts, split, without)

  single-holders : (n : ℕ) → holders n (set gs i (joined g cf)) ≡ holders n gs
  single-holders n = let e = holders-set n i gs g (joined g cf) at in omega (arith, e)

  pub join_at-flow :
      AreGroups gs
      → (gs' : List CallTraceInstanceGroup) × (join_at i cf gs ≡ some gs')
        × ((n : ℕ) → flow_at n gs' ≡ flow_at n gs ++ only n l cf)
        × ((n : ℕ) → holders n gs' ≡ holders n gs)
  unfolding join_at extract_last_instance
  join_at-flow a =
      let (l', b, e, removed, w') = last_of g.repetitions v.some_range v.pattern_order v.bounded in
      let same : l' ≡ l = some-injective l' l (sym e ∙ last) in
      let w : Without l g.repetitions b = subst (λ z. Without z g.repetitions b) same w' in
      let o = AreGroups-Others l i gs g at w.had a in
      elim (Bool-cases (is_single_instance g)) [
        | inl s ↦ (set gs i (joined g cf), rw (at, s) refl, join_single s w.had o, single-holders)
        | inr s ↦ (
          set gs i (record g { repetitions = b }) ++ joined (one_instance l g.control_flow) cf ∷ [],
          rw (at, s, last, removed) refl,
          join_apart b w o,
          apart-holders b w,
        )
      ]
