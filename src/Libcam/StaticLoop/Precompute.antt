-- ===== src/Libcam/StaticLoop/Precompute.antt =====
-- `precomputeDataStructures` and `getIterationNumber` against the iterations of an invocation, one by one.
use cam_alias_checker.Prelude.{
  ℕ, zero, suc, ◌+◌, ◌-◌, ◌%◌, ◌<◌, ◌≡◌, refl, ap, sym, subst, ◌∙◌, Option, none, some, List, [],
  ◌∷◌, length, get_elem?, ◌>>=◌, arith,
}
use cam_alias_checker.Libcam.Machine.{word}
use cam_alias_checker.Libcam.CompressionPattern.Count.{occurrences}
use cam_alias_checker.Libcam.Repetition.{RepetitionPattern}
use cam_alias_checker.Libcam.Repetition.Built.{range_map}
use cam_alias_checker.Libcam.Repetition.Built.Lookup.{ArePatterns, data_in, range_map-IsLut}
use cam_alias_checker.Libcam.Repetition.Built.Each.{EachRange, EachOf, EachIn, range_map-EachRange}
use cam_alias_checker.Libcam.CallTrace.{count_all, lut_input}
use cam_alias_checker.Libcam.CallTrace.Numbers.{expand_flow, count_all-IsCounts, count_at-count_all}
use cam_alias_checker.Libcam.StaticLoop.{
  IterationGroupCfc, InvocationGroupCfc, InstanceLut, build_iteration_numbers,
  build_all_iteration_numbers, build_invocation_numbers, precompute, entries_at,
  get_iteration_number,
}
use cam_alias_checker.Libcam.StaticLoop.Entries.{Tiles}
use cam_alias_checker.Libcam.StaticLoop.Lookup.{number_in-Tiles}
use cam_alias_checker.Libcam.StaticLoop.Ranges.{ArePositive}
use cam_alias_checker.Libcam.StaticLoop.Instances.{
  IsUsable, count_in, owners, build_instances-Tiles,
}
use cam_alias_checker.Libcam.StaticLoop.Iterations.{
  laps_by, laps_by-agree, count_for, count_by, owners-laps_by,
}

get_elem?-build_all :
    (gs : List IterationGroupCfc) (i : ℕ)
    → get_elem? (build_all_iteration_numbers gs) i
      ≡ (get_elem? gs i >>= λ g. some (build_iteration_numbers g))
unfolding build_all_iteration_numbers
get_elem?-build_all [] i = refl
get_elem?-build_all (g ∷ gs) zero = refl
get_elem?-build_all (g ∷ gs) (suc i) = get_elem?-build_all gs i

lut_input-build_all :
    (i : ℕ) (gs : List IterationGroupCfc)
    → lut_input i (build_all_iteration_numbers gs) ≡ lut_input i gs
unfolding lut_input build_all_iteration_numbers
lut_input-build_all i [] = refl
lut_input-build_all i (g ∷ gs) = ap (λ z. (g.repetitions, i) ∷ z) (lut_input-build_all (suc i) gs)

-- The iterations of a group end below `top`, and what its control flow has comes at least once in it, also
-- as a word.
pub record IsReady (top : ℕ) (g : IterationGroupCfc) : Type 0 where
  pub end_below : EachOf (λ x. x.1 < top) g.repetitions zero
  pub come : ArePositive (count_all g.control_flow [])

abbrev pub AreReady : ℕ → List IterationGroupCfc → Type 0
AreReady top [] = Unit
AreReady top (g ∷ gs) = IsReady top g × AreReady top gs

ready_group :
    (all : List IterationGroupCfc) (top i : ℕ) (g : IterationGroupCfc) (rs : RepetitionPattern)
    → get_elem? all i ≡ some g
    → ArePositive (count_all g.control_flow [])
    → EachOf (λ x. x.1 < top) rs zero
    → EachOf (IsUsable (build_all_iteration_numbers all) top) rs i
ready_group all top i g [] at pos below = tt
ready_group all top i g (r ∷ rs) at pos below = (
  record {
    ends_below = below.0;
    group = build_iteration_numbers g;
    group_at = get_elem?-build_all all i ∙ ap (λ o. o >>= λ h. some (build_iteration_numbers h)) at;
    ordered = count_all-IsCounts g.control_flow [] tt;
    positive = pos;
  },
  ready_group all top i g rs at pos below.1,
)

ready-IsUsable :
    (all : List IterationGroupCfc) (top i : ℕ) (gs : List IterationGroupCfc)
    → ((j : ℕ) → get_elem? all (i + j) ≡ get_elem? gs j)
    → AreReady top gs
    → EachIn (IsUsable (build_all_iteration_numbers all) top) (lut_input i gs)
unfolding lut_input
ready-IsUsable all top i [] at r = tt
ready-IsUsable all top i (g ∷ gs) at r =
    let here : get_elem? all i ≡ some g =
      (let e : i ≡ i + 0 = omega arith in ap (get_elem? all) e ∙ at 0) in
    (
      ready_group all top i g g.repetitions here r.0.come r.0.end_below,
      ready-IsUsable all top (suc i) gs
          (λ j. let e : suc i + j ≡ i + suc j = omega arith in ap (get_elem? all) e ∙ at (suc j))
          r.1,
    )

-- how often a symbol comes in the control flow of the group that an iteration is in, as a word
abbrev pub times_for : ℕ → Option IterationGroupCfc → ℕ
times_for s none = 0
times_for s (some g) = occurrences s (expand_flow g.control_flow) % word

abbrev pub times_in : ℕ → List IterationGroupCfc → (iteration : ℕ) → ℕ
times_in s gs n = times_for s (do i ← data_in n (lut_input 0 gs); get_elem? gs i)

-- The iteration of each instance of a symbol, in the order in which the iterations below `top` are run, each
-- with the control flow of its group.
abbrev pub run_through : ℕ → List IterationGroupCfc → (top : ℕ) → List ℕ
run_through s gs top = laps_by (times_in s gs) 0 top

count_for-times_for :
    (s : ℕ) (gs : List IterationGroupCfc) (o : Option ℕ)
    → count_for s (build_all_iteration_numbers gs) o ≡ times_for s (do i ← o; get_elem? gs i)
count_for-times_for s gs none = refl
count_for-times_for s gs (some i) = go (get_elem? gs i) (get_elem?-build_all gs i)
  where
    go :
        (o : Option IterationGroupCfc)
        → get_elem? (build_all_iteration_numbers gs) i
          ≡ (o >>= λ g. some (build_iteration_numbers g))
        → count_in s (build_all_iteration_numbers gs) i ≡ times_for s o
    go none e = rw (count_in, e) refl
    go (some g) e = rw (count_in, e) (count_at-count_all s g.control_flow)

count_by-times_in :
    (s n : ℕ) (gs : List IterationGroupCfc)
    → ArePatterns (lut_input 0 gs)
    → count_by s (build_all_iteration_numbers gs) (range_map (lut_input 0 gs) []) n
      ≡ times_in s gs n
count_by-times_in s n gs w =
    let (v, at) = range_map-IsLut n (lut_input 0 gs) w in
    ap (count_for s (build_all_iteration_numbers gs)) at
    ∙ count_for-times_for s gs (data_in n (lut_input 0 gs))

-- The ranges that `precomputeDataStructures` goes through give the iterations in the order in which they are
-- run.
owners-run_through :
    (s top : ℕ) (gs : List IterationGroupCfc)
    → ArePatterns (lut_input 0 gs)
    → EachRange (IsUsable (build_all_iteration_numbers gs) top) (range_map (lut_input 0 gs) [])
    → owners s (build_all_iteration_numbers gs) (range_map (lut_input 0 gs) [])
      ≡ run_through s gs top
owners-run_through s top gs w u =
    let built = build_all_iteration_numbers gs in
    let lut = range_map (lut_input 0 gs) [] in
    let (v, at) = range_map-IsLut 0 (lut_input 0 gs) w in
    owners-laps_by s 0 top top built lut (omega arith) v u
    ∙ laps_by-agree (count_by s built lut) (times_in s gs) 0 top
        (λ n le lt. count_by-times_in s n gs w)

-- what `precomputeDataStructures` leaves, with the table `m` from instances to iterations
abbrev pub precomputed : InvocationGroupCfc → InstanceLut → InvocationGroupCfc
precomputed v m =
    let gs = build_all_iteration_numbers v.iterations in
    record {
      iterations = gs;
      invocation_instances_lut = build_invocation_numbers gs [];
      instruction_instance_lut = m;
      iter_lut = range_map (lut_input 0 v.iterations) [];
    }

pub precompute-Tiles :
    (v : InvocationGroupCfc) (s top : ℕ)
    → v.instruction_instance_lut ≡ []
    → ArePatterns (lut_input 0 v.iterations)
    → AreReady top v.iterations
    → top < word
    → length (run_through s v.iterations top) < word
    → (m : InstanceLut) × (precompute v ≡ some (precomputed v m))
      × Tiles 0 (entries_at s m) (run_through s v.iterations top)
unfolding precompute
precompute-Tiles v s top empty w r small total =
    let gs = build_all_iteration_numbers v.iterations in
    let lut = range_map (lut_input 0 v.iterations) [] in
    let same : range_map (lut_input 0 gs) [] ≡ lut =
      ap (λ z. range_map z []) (lut_input-build_all 0 v.iterations) in
    let u =
      range_map-EachRange (IsUsable gs top) (lut_input 0 v.iterations) []
        (ready-IsUsable v.iterations top 0 v.iterations
          (λ j. let e : 0 + j ≡ j = omega arith in ap (get_elem? v.iterations) e) r)
        tt in
    let (ordered, at) = range_map-IsLut 0 (lut_input 0 v.iterations) w in
    let whole = owners-run_through s top v.iterations w u in
    let (m, run, tiles) =
      build_instances-Tiles s 0 top lut gs [] [] small ordered u
        (subst (λ z. length z < word) (sym whole) total) refl in
    (m, rw (same, empty, run) refl, subst (Tiles 0 (entries_at s m)) whole tiles)

-- For an invocation whose groups have patterns in order, no two of which overlap, with iterations below a
-- `top` that is a word, and control flows in which everything comes at least once, also as a word: if
-- nothing has been precomputed, `precomputeDataStructures` succeeds, and `getIterationNumber` then gives
-- for the instance k of an instruction, counted from 0, the iteration in which it comes when the iterations
-- are run in order, provided that there is such an instance and the number of them all is a word.
pub get_iteration_number-precompute :
    (v : InvocationGroupCfc) (s k top : ℕ)
    → v.instruction_instance_lut ≡ []
    → ArePatterns (lut_input 0 v.iterations)
    → AreReady top v.iterations
    → top < word
    → length (run_through s v.iterations top) < word
    → k < length (run_through s v.iterations top)
    → (v' : InvocationGroupCfc) × (precompute v ≡ some v')
      × (get_iteration_number v' s k ≡ get_elem? (run_through s v.iterations top) k)
unfolding get_iteration_number
get_iteration_number-precompute v s k top empty w r small total lt =
    let xs = run_through s v.iterations top in
    let (m, run, tiles) = precompute-Tiles v s top empty w r small total in
    (
      precomputed v m,
      run,
      number_in-Tiles k 0 (entries_at s m) xs (omega arith) (omega (arith, lt)) tiles
          ∙ ap (get_elem? xs) (let e : k - 0 ≡ k = omega arith in e),
    )
