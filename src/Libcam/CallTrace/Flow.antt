-- ===== src/Libcam/CallTrace/Flow.antt =====
-- The control flow of the instances of a call, in groups of which one has a given instance.
use cam_alias_checker.Prelude.{
  ℕ, zero, suc, ◌≡◌, ◌≢◌, refl, ap, sym, subst, ◌∙◌, true, false, some, List, [], ◌∷◌, ◌++◌,
  append_assoc, append-nil, get_elem?, set, ◌==◌, if◌then◌else◌, arith, Bool-cases, inl, inr,
}
use mathlib.Core.Option.{some-injective}
use cam_alias_checker.Libcam.CompressionPattern.{CompressionPattern}
use cam_alias_checker.Libcam.Repetition.{
  RepetitionPattern, is_singleton, get_first_instance, get_last_instance, remove_first_instance,
  remove_last_instance,
}
use cam_alias_checker.Libcam.Repetition.Lookup.{within, covers, IsPattern}
use cam_alias_checker.Libcam.Repetition.Instances.{IsBounded}
use cam_alias_checker.Libcam.CallTrace.{CallTraceInstanceGroup}
use cam_alias_checker.Libcam.CallTrace.Ends.{
  Without, remove_first_instance-Without, remove_last_instance-Without,
}

-- what a group has for an instance
abbrev pub share : ℕ → CallTraceInstanceGroup → List CompressionPattern
share n g = if covers n g.repetitions then g.control_flow else []

-- the control flow of an instance
abbrev pub flow_at : ℕ → List CallTraceInstanceGroup → List CompressionPattern
flow_at n [] = []
flow_at n (g ∷ gs) = share n g ++ flow_at n gs

-- A group has an instance, and its ranges are in order.
pub record IsGroup (g : CallTraceInstanceGroup) : Type 0 where
  pub some_range : g.repetitions ≢ []
  pub pattern_order : IsPattern 0 g.repetitions
  pub bounded : IsBounded g.repetitions

-- No group has the instance.
abbrev pub AllOut : ℕ → List CallTraceInstanceGroup → Type 0
AllOut n [] = Unit
AllOut n (g ∷ gs) = (covers n g.repetitions ≡ false) × AllOut n gs

-- No group but that at a place has the instance.
abbrev pub Others : ℕ → ℕ → List CallTraceInstanceGroup → Type 0
Others i n [] = Unit
Others zero n (g ∷ gs) = AllOut n gs
Others (suc i) n (g ∷ gs) = (covers n g.repetitions ≡ false) × Others i n gs

-- Groups, no two of which have an instance in common.
abbrev pub AreGroups : List CallTraceInstanceGroup → Type 0
AreGroups [] = Unit
AreGroups (g ∷ gs) =
    IsGroup g × ((n : ℕ) → covers n g.repetitions ≡ true → AllOut n gs) × AreGroups gs

pub flow_at-append :
    (n : ℕ) (gs hs : List CallTraceInstanceGroup)
    → flow_at n (gs ++ hs) ≡ flow_at n gs ++ flow_at n hs
flow_at-append n [] hs = refl
flow_at-append n (g ∷ gs) hs =
    ap (λ z. share n g ++ z) (flow_at-append n gs hs)
    ∙ sym (append_assoc (share n g) (flow_at n gs) (flow_at n hs))

pub share_out :
    (n : ℕ) (g : CallTraceInstanceGroup) → covers n g.repetitions ≡ false → share n g ≡ []
share_out n g e = rw e refl

pub share_in :
    (n : ℕ) (g : CallTraceInstanceGroup)
    → covers n g.repetitions ≡ true
    → share n g ≡ g.control_flow
share_in n g e = rw e refl

pub flow_out : (n : ℕ) (gs : List CallTraceInstanceGroup) → AllOut n gs → flow_at n gs ≡ []
flow_out n [] a = refl
flow_out n (g ∷ gs) a = ap (λ z. z ++ flow_at n gs) (share_out n g a.0) ∙ flow_out n gs a.1

pub out_at :
    (n i : ℕ) (gs : List CallTraceInstanceGroup) (g : CallTraceInstanceGroup)
    → get_elem? gs i ≡ some g
    → AllOut n gs
    → covers n g.repetitions ≡ false
out_at n i [] g e a = absurd (ground (arith, e))
out_at n zero (h ∷ gs) g e a =
    subst (λ z. covers n z.repetitions ≡ false) (some-injective h g e) a.0
out_at n (suc i) (h ∷ gs) g e a = out_at n i gs g e a.1

pub AreGroups-Others :
    (n i : ℕ) (gs : List CallTraceInstanceGroup) (g : CallTraceInstanceGroup)
    → get_elem? gs i ≡ some g
    → covers n g.repetitions ≡ true
    → AreGroups gs
    → Others i n gs
AreGroups-Others n i [] g e c a = absurd (ground (arith, e))
AreGroups-Others n zero (h ∷ gs) g e c a =
    a.1 n (subst (λ z. covers n z.repetitions ≡ true) (sym (some-injective h g e)) c)
AreGroups-Others n (suc i) (h ∷ gs) g e c a = (
  elim (Bool-cases (covers n h.repetitions)) [
    | inl t ↦ (let f = out_at n i gs g e (a.1 n t) in absurd (ground (arith, c, f)))
    | inr t ↦ t
  ],
  AreGroups-Others n i gs g e c a.2,
)

pub AreGroups-at :
    (i : ℕ) (gs : List CallTraceInstanceGroup) (g : CallTraceInstanceGroup)
    → get_elem? gs i ≡ some g
    → AreGroups gs
    → IsGroup g
AreGroups-at i [] g e a = absurd (ground (arith, e))
AreGroups-at zero (h ∷ gs) g e a = subst IsGroup (some-injective h g e) a.0
AreGroups-at (suc i) (h ∷ gs) g e a = AreGroups-at i gs g e a.2

-- A group changes, but not for the instance.
pub flow_set_same :
    (n i : ℕ) (gs : List CallTraceInstanceGroup) (g h : CallTraceInstanceGroup)
    → get_elem? gs i ≡ some g
    → share n h ≡ share n g
    → flow_at n (set gs i h) ≡ flow_at n gs
flow_set_same n i [] g h e s = refl
flow_set_same n zero (x ∷ gs) g h e s =
    ap (λ z. z ++ flow_at n gs) (s ∙ sym (ap (share n) (some-injective x g e)))
flow_set_same n (suc i) (x ∷ gs) g h e s = ap (λ z. share n x ++ z) (flow_set_same n i gs g h e s)

-- The group changes that alone has the instance.
pub flow_set_alone :
    (n i : ℕ) (gs : List CallTraceInstanceGroup) (g h : CallTraceInstanceGroup)
    → get_elem? gs i ≡ some g
    → Others i n gs
    → (flow_at n (set gs i h) ≡ share n h) × (flow_at n gs ≡ share n g)
flow_set_alone n i [] g h e o = absurd (ground (arith, e))
flow_set_alone n zero (x ∷ gs) g h e o =
    let rest = flow_out n gs o in
    (
      ap (λ z. share n h ++ z) rest ∙ append-nil (share n h),
      ap (λ z. share n x ++ z) rest ∙ append-nil (share n x) ∙ ap (share n) (some-injective x g e),
    )
flow_set_alone n (suc i) (x ∷ gs) g h e o =
    let (a, b) = flow_set_alone n i gs g h e o.1 in
    let none_here = share_out n x o.0 in
    (ap (λ z. z ++ flow_at n (set gs i h)) none_here ∙ a, ap (λ z. z ++ flow_at n gs) none_here ∙ b)

pub last_of :
    (rs : RepetitionPattern)
    → rs ≢ []
    → IsPattern 0 rs
    → IsBounded rs
    → (l : ℕ) × (b : RepetitionPattern) × (get_last_instance rs ≡ some l)
      × (remove_last_instance rs ≡ some b)
      × Without l rs b
last_of [] ne v w = absurd (ne refl)
last_of (r ∷ rs) ne v w =
    let (l, b, e, f, le, t) = remove_last_instance-Without 0 r rs v w in (l, b, e, f, t)

pub first_of :
    (rs : RepetitionPattern)
    → rs ≢ []
    → IsPattern 0 rs
    → IsBounded rs
    → (l : ℕ) × (b : RepetitionPattern) × (get_first_instance rs ≡ some l)
      × (remove_first_instance rs ≡ some b)
      × Without l rs b
first_of [] ne v w = absurd (ne refl)
first_of (r ∷ rs) ne v w =
    let (b, f, t) = remove_first_instance-Without 0 r rs v w.0 in (r.0, b, refl, f, t)

pub last_covers :
    (g : CallTraceInstanceGroup) (l : ℕ)
    → IsGroup g
    → get_last_instance g.repetitions ≡ some l
    → covers l g.repetitions ≡ true
last_covers g l v last =
    let (k, b, e, removed, w) = last_of g.repetitions v.some_range v.pattern_order v.bounded in
    subst (λ z. covers z g.repetitions ≡ true) (some-injective k l (sym e ∙ last)) w.had

pub first_covers :
    (g : CallTraceInstanceGroup) (l : ℕ)
    → IsGroup g
    → get_first_instance g.repetitions ≡ some l
    → covers l g.repetitions ≡ true
first_covers g l v first =
    let (k, b, e, removed, w) = first_of g.repetitions v.some_range v.pattern_order v.bounded in
    subst (λ z. covers z g.repetitions ≡ true) (some-injective k l (sym e ∙ first)) w.had

pub single_last :
    (rs : RepetitionPattern) (n l : ℕ)
    → is_singleton rs ≡ true
    → get_last_instance rs ≡ some l
    → (n == l) ≡ false
    → covers n rs ≡ false
unfolding covers
single_last [] n l s e ne = refl
single_last (r ∷ []) n l s e ne =
    let same : r.1 ≡ l = some-injective r.1 l e in
    let out : within n r.0 r.1 ≡ false = ground (arith, s, same, ne) in rw out refl
single_last (r ∷ q ∷ rs) n l s e ne = absurd (ground (arith, s))

pub single_first :
    (rs : RepetitionPattern) (n l : ℕ)
    → is_singleton rs ≡ true
    → get_first_instance rs ≡ some l
    → (n == l) ≡ false
    → covers n rs ≡ false
unfolding covers
single_first [] n l s e ne = refl
single_first (r ∷ []) n l s e ne =
    let same : r.0 ≡ l = some-injective r.0 l e in
    let out : within n r.0 r.1 ≡ false = ground (arith, s, same, ne) in rw out refl
single_first (r ∷ q ∷ rs) n l s e ne = absurd (ground (arith, s))
