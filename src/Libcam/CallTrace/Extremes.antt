-- ===== src/Libcam/CallTrace/Extremes.antt =====
-- The instances that `addCallTraceCall` of libcam/src/CallTrace.cpp compares: none of the one call is behind
-- the chosen one, and none of the other before it.
use cam_alias_checker.Prelude.{
  ℕ, suc, ◌+◌, ◌≤◌, ◌<◌, ◌≡◌, refl, ap, true, false, some, List, [], ◌∷◌, ltb, arith, Bool-cases,
  inl, inr,
}
use mathlib.Core.Option.{some-injective}
use cam_alias_checker.Libcam.Repetition.{RepetitionPattern, get_first_instance, get_last_instance}
use cam_alias_checker.Libcam.Repetition.Lookup.{within, covers, IsPattern}
use cam_alias_checker.Libcam.CallTrace.{
  CallTraceInstanceGroup, first_instance, last_instance, max_from, min_from, max_existing, min_new,
}
use cam_alias_checker.Libcam.CallTrace.Ends.{covers_below}
use cam_alias_checker.Libcam.CallTrace.Flow.{IsGroup, AreGroups, last_of, first_of}
use cam_alias_checker.Libcam.CallTrace.Holders.{holders}

last_upper :
    (lo n l : ℕ) (rs : RepetitionPattern)
    → IsPattern lo rs
    → get_last_instance rs ≡ some l
    → covers n rs ≡ true
    → (lo ≤ l) × (n ≤ l)
unfolding covers
last_upper lo n l [] v e c = absurd (ground (arith, c))
last_upper lo n l (r ∷ []) v e c =
    let same : r.1 ≡ l = some-injective r.1 l e in
    (omega (arith, v.0, v.1, same), ground (arith, c, same))
last_upper lo n l (r ∷ q ∷ rs) v e c = elim (Bool-cases (within n r.0 r.1)) [
  | inl p ↦
      let head : covers q.0 (q ∷ rs) ≡ true =
        (let w : within q.0 q.0 q.1 ≡ true = (let o = v.2.1 in ground (arith, o)) in rw w refl) in
      let (up, same) = last_upper (r.1 + 1) q.0 l (q ∷ rs) v.2 e head in
      (omega (arith, v.0, v.1, up), ground (arith, p, up))
  | inr p ↦
      let (up, le) = last_upper (r.1 + 1) n l (q ∷ rs) v.2 e (rw p at c) in
      (omega (arith, v.0, v.1, up), le)
]

first_lower :
    (n l : ℕ) (rs : RepetitionPattern)
    → IsPattern 0 rs
    → get_first_instance rs ≡ some l
    → covers n rs ≡ true
    → l ≤ n
unfolding covers
first_lower n l [] v e c = absurd (ground (arith, c))
first_lower n l (r ∷ rs) v e c =
    let same : r.0 ≡ l = some-injective r.0 l e in
    elim (Bool-cases (ltb n r.0)) [
      | inl p ↦
          let out : covers n (r ∷ rs) ≡ false =
            covers_below n r.0 (r ∷ rs) (ground (arith, p)) (omega arith, v.1, v.2) in
          absurd (ground (arith, out, c))
      | inr p ↦ ground (arith, p, same)
    ]

-- No instance of the groups is behind `l`.
abbrev pub NoneBehind : ℕ → List CallTraceInstanceGroup → Type 0
NoneBehind l gs = (k : ℕ) → 0 < holders k gs → k ≤ l

-- No instance of the groups is before `l`.
abbrev pub NoneBefore : ℕ → List CallTraceInstanceGroup → Type 0
NoneBefore l gs = (k : ℕ) → 0 < holders k gs → l ≤ k

both_behind :
    (l n : ℕ) (g : CallTraceInstanceGroup) (gs : List CallTraceInstanceGroup)
    → IsGroup g
    → last_instance g ≡ some n
    → n ≤ l
    → NoneBehind l gs
    → NoneBehind l (g ∷ gs)
both_behind l n g gs v e le h k pos = elim (Bool-cases (covers k g.repetitions)) [
  | inl t ↦ let (a, b) = last_upper 0 k n g.repetitions v.pattern_order e t in omega (arith, b, le)
  | inr t ↦ h k (let p : 0 < 0 + holders k gs = rw t at pos in omega (arith, p))
]

both_before :
    (l n : ℕ) (g : CallTraceInstanceGroup) (gs : List CallTraceInstanceGroup)
    → IsGroup g
    → first_instance g ≡ some n
    → l ≤ n
    → NoneBefore l gs
    → NoneBefore l (g ∷ gs)
both_before l n g gs v e le h k pos = elim (Bool-cases (covers k g.repetitions)) [
  | inl t ↦ let b = first_lower k n g.repetitions v.pattern_order e t in omega (arith, b, le)
  | inr t ↦ h k (let p : 0 < 0 + holders k gs = rw t at pos in omega (arith, p))
]

max_from-NoneBehind :
    (best n place i l : ℕ) (rest : List CallTraceInstanceGroup)
    → AreGroups rest
    → max_from best n place rest ≡ some (i, l)
    → (n ≤ l) × NoneBehind l rest
unfolding max_from
max_from-NoneBehind best n place i l [] a e =
    let same : n ≡ l = ap (λ z. z.1) (some-injective (best, n) (i, l) e) in
    (omega (arith, same), λ k pos. absurd (omega (arith, pos)))
max_from-NoneBehind best n place i l (h ∷ rest) a e =
    let v = a.0 in
    let (k, b, last, removed, w) = last_of h.repetitions v.some_range v.pattern_order v.bounded in
    elim (Bool-cases (ltb n k)) [
      | inl t ↦
          let (le, more) =
            max_from-NoneBehind place k (suc place) i l rest a.2 (rw (last, t) at e) in
          let up : n ≤ l = ground (arith, t, le) in (up, both_behind l k h rest v last le more)
      | inr t ↦
          let (le, more) =
            max_from-NoneBehind best n (suc place) i l rest a.2 (rw (last, t) at e) in
          let up : k ≤ l = ground (arith, t, le) in (le, both_behind l k h rest v last up more)
    ]

min_from-NoneBefore :
    (best n place i l : ℕ) (rest : List CallTraceInstanceGroup)
    → AreGroups rest
    → min_from best n place rest ≡ some (i, l)
    → (l ≤ n) × NoneBefore l rest
unfolding min_from
min_from-NoneBefore best n place i l [] a e =
    let same : n ≡ l = ap (λ z. z.1) (some-injective (best, n) (i, l) e) in
    (omega (arith, same), λ k pos. absurd (omega (arith, pos)))
min_from-NoneBefore best n place i l (h ∷ rest) a e =
    let v = a.0 in
    let (k, b, first, removed, w) = first_of h.repetitions v.some_range v.pattern_order v.bounded in
    elim (Bool-cases (ltb k n)) [
      | inl t ↦
          let (le, more) =
            min_from-NoneBefore place k (suc place) i l rest a.2 (rw (first, t) at e) in
          let up : l ≤ n = ground (arith, t, le) in (up, both_before l k h rest v first le more)
      | inr t ↦
          let (le, more) =
            min_from-NoneBefore best n (suc place) i l rest a.2 (rw (first, t) at e) in
          let up : l ≤ k = ground (arith, t, le) in (le, both_before l k h rest v first up more)
    ]

pub max_existing-NoneBehind :
    (g : CallTraceInstanceGroup) (gs : List CallTraceInstanceGroup) (i l : ℕ)
    → AreGroups (g ∷ gs)
    → max_existing (g ∷ gs) ≡ some (i, l)
    → NoneBehind l (g ∷ gs)
unfolding max_existing
max_existing-NoneBehind g gs i l a e =
    let v = a.0 in
    let (k, b, last, removed, w) = last_of g.repetitions v.some_range v.pattern_order v.bounded in
    let (le, more) = max_from-NoneBehind 0 k 1 i l gs a.2 (rw last at e) in
    both_behind l k g gs v last le more

pub min_new-NoneBefore :
    (g : CallTraceInstanceGroup) (gs : List CallTraceInstanceGroup) (i l : ℕ)
    → AreGroups (g ∷ gs)
    → min_new (g ∷ gs) ≡ some (i, l)
    → NoneBefore l (g ∷ gs)
unfolding min_new
min_new-NoneBefore g gs i l a e =
    let v = a.0 in
    let (k, b, first, removed, w) = first_of g.repetitions v.some_range v.pattern_order v.bounded in
    let (le, more) = min_from-NoneBefore 0 k 1 i l gs a.2 (rw first at e) in
    both_before l k g gs v first le more
