-- ===== src/Libcam/CallTrace/Choice.antt =====
-- The groups that `addCallTraceCall` of libcam/src/CallTrace.cpp chooses: one with the greatest last
-- instance, and one with the least first instance.
use cam_alias_checker.Prelude.{
  ℕ, suc, ◌+◌, ◌≡◌, refl, ap, ◌∙◌, Option, some, List, [], ◌∷◌, get_elem?, ltb, arith, Bool-cases,
  inl, inr,
}
use cam_alias_checker.Libcam.CallTrace.{
  CallTraceInstanceGroup, first_instance, last_instance, max_from, min_from, max_existing, min_new,
}
use cam_alias_checker.Libcam.CallTrace.Flow.{AreGroups, last_of, first_of}

-- `rest` is what stands from a place on.
abbrev IsFrom : List CallTraceInstanceGroup → ℕ → List CallTraceInstanceGroup → Type 0
IsFrom gs place rest = (k : ℕ) → get_elem? gs (place + k) ≡ get_elem? rest k

IsFrom-head :
    (gs : List CallTraceInstanceGroup) (place : ℕ) (h : CallTraceInstanceGroup)
    (rest : List CallTraceInstanceGroup)
    → IsFrom gs place (h ∷ rest)
    → (get_elem? gs place ≡ some h) × IsFrom gs (suc place) rest
IsFrom-head gs place h rest f = (
  ap (get_elem? gs) (let e : place ≡ place + 0 = omega arith in e) ∙ f 0,
  λ k. ap (get_elem? gs) (let e : suc place + k ≡ place + suc k = omega arith in e) ∙ f (suc k),
)

-- a place, and the last or the first instance of the group there
abbrev pub Chosen :
    (CallTraceInstanceGroup → Option ℕ) → List CallTraceInstanceGroup → Option (ℕ × ℕ) → Type 0
Chosen f gs o =
    (i : ℕ) × (l : ℕ) × (g : CallTraceInstanceGroup) × (o ≡ some (i, l))
    × (get_elem? gs i ≡ some g)
    × (f g ≡ some l)

max_from-Chosen :
    (gs : List CallTraceInstanceGroup) (best n place : ℕ) (g : CallTraceInstanceGroup)
    (rest : List CallTraceInstanceGroup)
    → get_elem? gs best ≡ some g
    → last_instance g ≡ some n
    → IsFrom gs place rest
    → AreGroups rest
    → Chosen last_instance gs (max_from best n place rest)
unfolding max_from
max_from-Chosen gs best n place g [] at last f a = (best, n, g, refl, at, last)
max_from-Chosen gs best n place g (h ∷ rest) at last f a =
    let (here, f') = IsFrom-head gs place h rest f in
    let v = a.0 in
    let (k, b, e, removed, w) = last_of h.repetitions v.some_range v.pattern_order v.bounded in
    elim (Bool-cases (ltb n k)) [
      | inl t ↦ rw (e, t) (max_from-Chosen gs place k (suc place) h rest here e f' a.2)
      | inr t ↦ rw (e, t) (max_from-Chosen gs best n (suc place) g rest at last f' a.2)
    ]

min_from-Chosen :
    (gs : List CallTraceInstanceGroup) (best n place : ℕ) (g : CallTraceInstanceGroup)
    (rest : List CallTraceInstanceGroup)
    → get_elem? gs best ≡ some g
    → first_instance g ≡ some n
    → IsFrom gs place rest
    → AreGroups rest
    → Chosen first_instance gs (min_from best n place rest)
unfolding min_from
min_from-Chosen gs best n place g [] at first f a = (best, n, g, refl, at, first)
min_from-Chosen gs best n place g (h ∷ rest) at first f a =
    let (here, f') = IsFrom-head gs place h rest f in
    let v = a.0 in
    let (k, b, e, removed, w) = first_of h.repetitions v.some_range v.pattern_order v.bounded in
    elim (Bool-cases (ltb k n)) [
      | inl t ↦ rw (e, t) (min_from-Chosen gs place k (suc place) h rest here e f' a.2)
      | inr t ↦ rw (e, t) (min_from-Chosen gs best n (suc place) g rest at first f' a.2)
    ]

pub max_existing-Chosen :
    (g : CallTraceInstanceGroup) (gs : List CallTraceInstanceGroup)
    → AreGroups (g ∷ gs)
    → Chosen last_instance (g ∷ gs) (max_existing (g ∷ gs))
unfolding max_existing
max_existing-Chosen g gs a =
    let v = a.0 in
    let (k, b, e, removed, w) = last_of g.repetitions v.some_range v.pattern_order v.bounded in
    rw e (
      max_from-Chosen (g ∷ gs) 0 k 1 g gs refl e
        (λ j. ap (get_elem? (g ∷ gs)) (let s : 1 + j ≡ suc j = omega arith in s)) a.2)

pub min_new-Chosen :
    (g : CallTraceInstanceGroup) (gs : List CallTraceInstanceGroup)
    → AreGroups (g ∷ gs)
    → Chosen first_instance (g ∷ gs) (min_new (g ∷ gs))
unfolding min_new
min_new-Chosen g gs a =
    let v = a.0 in
    let (k, b, e, removed, w) = first_of g.repetitions v.some_range v.pattern_order v.bounded in
    rw e (
      min_from-Chosen (g ∷ gs) 0 k 1 g gs refl e
        (λ j. ap (get_elem? (g ∷ gs)) (let s : 1 + j ≡ suc j = omega arith in s)) a.2)
