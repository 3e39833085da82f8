-- ===== src/Libcam/CallTrace/Taken.antt =====
-- What `addCallTraceCall` of libcam/src/CallTrace.cpp takes out of the other call.
use cam_alias_checker.Prelude.{
  ℕ, zero, suc, ◌+◌, ◌≡◌, refl, ap, sym, subst, ◌∙◌, true, some, List, [], ◌∷◌, ◌++◌, get_elem?,
  set, ◌==◌, if◌then◌else◌, arith, Bool-cases, inl, inr,
}
use mathlib.Core.Option.{some-injective}
use cam_alias_checker.Libcam.CallTrace.{
  CallTraceInstanceGroup, is_single_instance, first_instance, extract_first_instance,
  without_joined, left_over,
}
use cam_alias_checker.Libcam.CallTrace.Ends.{Without}
use cam_alias_checker.Libcam.CallTrace.Flow.{
  share, flow_at, IsGroup, Others, share_out, share_in, first_of, single_first,
}
use cam_alias_checker.Libcam.CallTrace.Holders.{one, one_at, holders, one-Without}
use cam_alias_checker.Libcam.CallTrace.Join.{only}

-- A group that has no instance but its first.
single_one :
    (l : ℕ) (h : CallTraceInstanceGroup) {b : List (ℕ × ℕ)}
    → Without l h.repetitions b
    → first_instance h ≡ some l
    → is_single_instance h ≡ true
    → (n : ℕ) → one n h.repetitions ≡ one_at n l
single_one l h w first s n = elim (Bool-cases (n == l)) [
  | inl t ↦
      let is_l : n ≡ l = ground (arith, t) in
      rw t (ap (λ z. one z h.repetitions) is_l ∙ ap (λ z. if z then 1 else 0) w.had)
  | inr t ↦ rw t (ap (λ z. if z then 1 else 0) (single_first h.repetitions n l s first t))
]

-- The groups of the other call without the joined instance.
pub without_joined-flow :
    (i l : ℕ) (h : CallTraceInstanceGroup) (hs : List CallTraceInstanceGroup)
    → get_elem? hs i ≡ some h
    → IsGroup h
    → first_instance h ≡ some l
    → Others i l hs
    → (more : List CallTraceInstanceGroup) × (without_joined i hs ≡ some more)
      × ((n : ℕ) → flow_at n hs ≡ only n l h.control_flow ++ flow_at n more)
      × ((n : ℕ) → holders n hs ≡ one_at n l + holders n more)
unfolding without_joined extract_first_instance
without_joined-flow i l h [] at v first o = absurd (ground (arith, at))
without_joined-flow zero l h (g ∷ hs) at v first o =
    let same : g ≡ h = some-injective g h at in
    let (l', b, e, removed, w') = first_of h.repetitions v.some_range v.pattern_order v.bounded in
    let same_l : l' ≡ l = some-injective l' l (sym e ∙ first) in
    let w : Without l h.repetitions b = subst (λ z. Without z h.repetitions b) same_l w' in
    let less : CallTraceInstanceGroup = record h { repetitions = b } in
    elim (Bool-cases (is_single_instance h)) [
      | inl s ↦ (
        hs,
        rw (same, s) refl,
        λ n. ap (λ z. share n z ++ flow_at n hs) same ∙ elim (Bool-cases (n == l)) [
          | inl t ↦
              let is_l : n ≡ l = ground (arith, t) in
              rw t (ap (λ z. z ++ flow_at n hs) (ap (λ m. share m h) is_l ∙ share_in l h w.had))
          | inr t ↦ rw t (
              ap (λ z. z ++ flow_at n hs)
                (share_out n h (single_first h.repetitions n l s first t)))
        ],
        λ n.
            let own = single_one l h w first s n in
            let e : one n g.repetitions ≡ one n h.repetitions =
              ap (λ z. one n z.repetitions) same in
            omega (arith, own, e),
      )
      | inr s ↦ (
        less ∷ hs,
        rw (same, s, first, removed) refl,
        λ n. ap (λ z. share n z ++ flow_at n hs) same ∙ elim (Bool-cases (n == l)) [
          | inl t ↦
              let is_l : n ≡ l = ground (arith, t) in
              let here : share l h ++ flow_at l hs
                  ≡ h.control_flow ++ (share l less ++ flow_at l hs) =
                ap (λ z. z ++ flow_at l hs) (share_in l h w.had)
                ∙ ap (λ z. h.control_flow ++ (z ++ flow_at l hs)) (sym (share_out l less w.gone)) in
              rw t (
                subst
                  (λ m.
                    share m h ++ flow_at m hs ≡ h.control_flow ++ (share m less ++ flow_at m hs))
                  (sym is_l) here)
          | inr t ↦
              rw t (ap (λ z. (if z then h.control_flow else []) ++ flow_at n hs) (sym (w.same n t)))
        ],
        λ n.
            let parts = one-Without n l h.repetitions b w in
            let e : one n g.repetitions ≡ one n h.repetitions =
              ap (λ z. one n z.repetitions) same in
            omega (arith, parts, e),
      )
    ]
without_joined-flow (suc i) l h (g ∷ hs) at v first o =
    let (more, run, flow, held) = without_joined-flow i l h hs at v first o.1 in
    (
      g ∷ more,
      rw run refl,
      λ n. elim (Bool-cases (n == l)) [
        | inl t ↦
            let is_l : n ≡ l = ground (arith, t) in
            let none_here : share n g ≡ [] = ap (λ m. share m g) is_l ∙ share_out l g o.0 in
            let rest : flow_at n hs ≡ h.control_flow ++ flow_at n more = rw t at (flow n) in
            rw t (
              ap (λ z. z ++ flow_at n hs) none_here
              ∙ rest
              ∙ ap (λ z. h.control_flow ++ (z ++ flow_at n more)) (sym none_here))
        | inr t ↦
            let rest : flow_at n hs ≡ flow_at n more = rw t at (flow n) in
            rw t (ap (λ z. share n g ++ z) rest)
      ],
      λ n. let e = held n in omega (arith, e),
    )

pub left_over-runs :
    (i : ℕ) (h : CallTraceInstanceGroup) (hs : List CallTraceInstanceGroup)
    → get_elem? hs i ≡ some h
    → IsGroup h
    → (hs' : List CallTraceInstanceGroup) × (left_over i hs ≡ some hs')
unfolding left_over extract_first_instance
left_over-runs i h hs at v =
    let (l, b, first, removed, w) = first_of h.repetitions v.some_range v.pattern_order v.bounded in
    elim (Bool-cases (is_single_instance h)) [
      | inl s ↦ (hs, rw (at, s) refl)
      | inr s ↦ (set hs i (record h { repetitions = b }), rw (at, s, first, removed) refl)
    ]
