-- ===== src/Libcam/CallTrace/Holders.antt =====
-- How many groups of a call have an instance.
use cam_alias_checker.Prelude.{
  ℕ, zero, suc, ◌+◌, ◌≤◌, ◌<◌, ◌≡◌, refl, ap, ◌∙◌, true, some, List, [], ◌∷◌, ◌++◌, get_elem?, set,
  ◌==◌, if◌then◌else◌, arith, Bool-cases, inl, inr,
}
use mathlib.Core.Option.{some-injective}
use cam_alias_checker.Libcam.Repetition.{RepetitionPattern}
use cam_alias_checker.Libcam.Repetition.Lookup.{covers}
use cam_alias_checker.Libcam.CallTrace.{CallTraceInstanceGroup}
use cam_alias_checker.Libcam.CallTrace.Ends.{Without}
use cam_alias_checker.Libcam.CallTrace.Flow.{AllOut, AreGroups}

-- 1 for an instance of a pattern
abbrev pub one : ℕ → RepetitionPattern → ℕ
one n rs = if covers n rs then 1 else 0

-- 1 for the instance `l`
abbrev pub one_at : ℕ → ℕ → ℕ
one_at n l = if n == l then 1 else 0

abbrev pub holders : ℕ → List CallTraceInstanceGroup → ℕ
holders n [] = 0
holders n (g ∷ gs) = one n g.repetitions + holders n gs

pub holders-append :
    (n : ℕ) (gs hs : List CallTraceInstanceGroup)
    → holders n (gs ++ hs) ≡ holders n gs + holders n hs
holders-append n [] hs = omega arith
holders-append n (g ∷ gs) hs = omega (arith, holders-append n gs hs)

holders_out : (n : ℕ) (gs : List CallTraceInstanceGroup) → AllOut n gs → holders n gs ≡ 0
holders_out n [] a = refl
holders_out n (g ∷ gs) a = rw (a.0) (let e = holders_out n gs a.1 in omega (arith, e))

-- Groups that have no instance in common.
pub AreGroups-holders : (n : ℕ) (gs : List CallTraceInstanceGroup) → AreGroups gs → holders n gs ≤ 1
AreGroups-holders n [] a = omega arith
AreGroups-holders n (g ∷ gs) a = elim (Bool-cases (covers n g.repetitions)) [
  | inl t ↦ rw t (let e = holders_out n gs (a.1 n t) in omega (arith, e))
  | inr t ↦ rw t (let e = AreGroups-holders n gs a.2 in omega (arith, e))
]

pub holders-set :
    (n i : ℕ) (gs : List CallTraceInstanceGroup) (g h : CallTraceInstanceGroup)
    → get_elem? gs i ≡ some g
    → holders n (set gs i h) + one n g.repetitions ≡ holders n gs + one n h.repetitions
holders-set n i [] g h e = absurd (ground (arith, e))
holders-set n zero (x ∷ gs) g h e =
    let same : one n x.repetitions ≡ one n g.repetitions =
      ap (λ z. one n z.repetitions) (some-injective x g e) in
    omega (arith, same)
holders-set n (suc i) (x ∷ gs) g h e = omega (arith, holders-set n i gs g h e)

pub holders_at :
    (n i : ℕ) (gs : List CallTraceInstanceGroup) (g : CallTraceInstanceGroup)
    → get_elem? gs i ≡ some g
    → covers n g.repetitions ≡ true
    → 0 < holders n gs
holders_at n i [] g e c = absurd (ground (arith, e))
holders_at n zero (x ∷ gs) g e c =
    let same : one n x.repetitions ≡ 1 =
      ap (λ z. one n z.repetitions) (some-injective x g e) ∙ rw c refl in
    omega (arith, same)
holders_at n (suc i) (x ∷ gs) g e c = omega (arith, holders_at n i gs g e c)

-- A pattern without an instance, and that instance.
pub one-Without :
    (n l : ℕ) (rs b : RepetitionPattern) → Without l rs b → one n rs ≡ one n b + one_at n l
one-Without n l rs b w = elim (Bool-cases (n == l)) [
  | inl t ↦
      let is_l : n ≡ l = ground (arith, t) in
      let had : one n rs ≡ 1 = ap (λ z. one z rs) is_l ∙ rw (w.had) refl in
      let gone : one n b ≡ 0 = ap (λ z. one z b) is_l ∙ rw (w.gone) refl in
      rw t (omega (arith, had, gone))
  | inr t ↦
      let same : one n b ≡ one n rs = ap (λ z. if z then 1 else 0) (w.same n t) in
      rw t (omega (arith, same))
]
