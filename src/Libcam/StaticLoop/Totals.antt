-- ===== src/Libcam/StaticLoop/Totals.antt =====
-- `precomputeDataStructures` and `getNumInstances` against the iterations of an invocation, one by one.
use cam_alias_checker.Prelude.{
  ℕ, suc, ◌+◌, ◌*◌, ◌%◌, ◌<◌, ◌≡◌, refl, ap, sym, ◌∙◌, true, false, none, some, List, [], ◌∷◌,
  length, get_elem?, arith, Bool-cases, inl, inr, ◌>>=◌,
}
use cam_alias_checker.Libcam.Machine.{word, add-congruent, mul-congruent}
use cam_alias_checker.Libcam.CompressionPattern.{Counts, add_counts}
use cam_alias_checker.Libcam.CompressionPattern.Count.{occurrences, total, total-add_counts}
use cam_alias_checker.Libcam.CompressionPattern.Ordered.{
  IsCounts, count_at-total, add_counts-IsCounts,
}
use cam_alias_checker.Libcam.Repetition.{RepetitionPattern}
use cam_alias_checker.Libcam.Repetition.Lookup.{within, covers, IsPattern}
use cam_alias_checker.Libcam.Repetition.Built.Lookup.{
  ArePatterns, PartedFrom, Disjoint, DisjointFrom, data_in, or_else-none,
}
use cam_alias_checker.Libcam.CallTrace.{count_all, lut_input}
use cam_alias_checker.Libcam.CallTrace.Numbers.{expand_flow, count_all-IsCounts, count_at-count_all}
use cam_alias_checker.Libcam.StaticLoop.{
  IterationGroupCfc, InvocationGroupCfc, build_all_iteration_numbers, build_invocation_numbers,
  precompute, get_num_instances, get_number_of_iterations_slow,
}
use cam_alias_checker.Libcam.StaticLoop.Sums.{
  sum, length-laps_by, sum-agree, sum-constant, sum-plus, size_of, weight, sum-weight,
  number_of_iterations_lem,
}
use cam_alias_checker.Libcam.StaticLoop.Precompute.{
  IsReady, AreReady, times_for, times_in, run_through, precomputed, precompute-Tiles,
}

out_of_range :
    (i : ℕ) (r : ℕ × ℕ) (qs : RepetitionPattern)
    → within i r.0 r.1 ≡ true
    → PartedFrom r qs
    → covers i qs ≡ false
unfolding covers
out_of_range i r [] h d = refl
out_of_range i r (q ∷ qs) h d =
    let out : within i q.0 q.1 ≡ false = ground (arith, h, d.0) in
    rw (out, out_of_range i r qs h d.1) refl

out_of_both :
    (i : ℕ) (rs qs : RepetitionPattern) → covers i rs ≡ true → Disjoint rs qs → covers i qs ≡ false
unfolding covers
out_of_both i [] qs h d = absurd (ground (arith, h))
out_of_both i (r ∷ rs) qs h d = elim (Bool-cases (within i r.0 r.1)) [
  | inl p ↦ out_of_range i r qs p d.0
  | inr p ↦ out_of_both i rs qs (rw p at h) d.1
]

-- how often a symbol comes in the control flow of a group, as a word
abbrev times_of : ℕ → IterationGroupCfc → ℕ
times_of s g = occurrences s (expand_flow g.control_flow) % word

-- what all groups together have of a symbol in an iteration
unfoldable all_times : ℕ → List IterationGroupCfc → ℕ → ℕ
unfolding covers
all_times s [] i = 0
all_times s (g ∷ gs) i = weight (times_of s g) g.repetitions i + all_times s gs i

no_times :
    (s i place : ℕ) (rs : RepetitionPattern) (gs : List IterationGroupCfc)
    → covers i rs ≡ true
    → DisjointFrom rs (lut_input place gs)
    → (all_times s gs i ≡ 0) × (data_in i (lut_input place gs) ≡ none)
unfolding all_times lut_input data_in
no_times s i place rs [] h d = (refl, refl)
no_times s i place rs (g ∷ gs) h d =
    let out = out_of_both i rs g.repetitions h d.0 in
    let (rest, rest') = no_times s i (suc place) rs gs h d.1 in
    (rw (out, rest) (omega arith), rw (out, rest') refl)

-- An iteration has the control flow of one group at most.
times_in-all_times :
    (s i place : ℕ) (all gs : List IterationGroupCfc)
    → ((j : ℕ) → get_elem? all (place + j) ≡ get_elem? gs j)
    → ArePatterns (lut_input place gs)
    → times_for s (do p ← data_in i (lut_input place gs); get_elem? all p) ≡ all_times s gs i
unfolding all_times lut_input data_in
times_in-all_times s i place all [] at w = refl
times_in-all_times s i place all (g ∷ gs) at w =
    let rest = data_in i (lut_input (suc place) gs) in
    let found : get_elem? all place ≡ some g =
      (let e : place ≡ place + 0 = omega arith in ap (get_elem? all) e ∙ at 0) in
    let others : (j : ℕ) → get_elem? all (suc place + j) ≡ get_elem? gs j = λ j.
      let e : suc place + j ≡ place + suc j = omega arith in ap (get_elem? all) e ∙ at (suc j) in
    elim (Bool-cases (covers i g.repetitions)) [
      | inl p ↦
          let (zero_more, out) = no_times s i (suc place) g.repetitions gs p w.1 in
          rw (p, out, found, zero_more) (omega arith)
      | inr p ↦ rw p (
          ap (λ o. times_for s (do q ← o; get_elem? all q)) (or_else-none rest)
          ∙ times_in-all_times s i (suc place) all gs others w.2
          ∙ (let e : all_times s gs i ≡ 0 + all_times s gs i = omega arith in e))
    ]

build_invocation-IsCounts :
    (gs : List IterationGroupCfc) (m : Counts)
    → IsCounts 0 m
    → IsCounts 0 (build_invocation_numbers gs m)
unfolding build_invocation_numbers
build_invocation-IsCounts [] m w = w
build_invocation-IsCounts (g ∷ gs) m w =
    let n = get_number_of_iterations_slow g in
    let c = g.num_instances_lut in
    build_invocation-IsCounts gs (add_counts n c m) (add_counts-IsCounts n c m w)

-- A group adds the instances of its iterations.
group_total :
    (s top : ℕ) (g : IterationGroupCfc)
    → top < word
    → IsPattern 0 g.repetitions
    → IsReady top g
    → (get_number_of_iterations_slow g * total s (count_all g.control_flow [])) % word
      ≡ sum (weight (times_of s g) g.repetitions) 0 top % word
group_total s top g small v r =
    let c = count_all g.control_flow [] in
    let n = get_number_of_iterations_slow g in
    let k = size_of g.repetitions in
    let (at, lt) = count_at-total s 0 c (count_all-IsCounts g.control_flow [] tt) in
    let w : total s c ≡ times_of s g = sym at ∙ count_at-count_all s g.control_flow in
    let size : n % word ≡ k % word =
      number_of_iterations_lem 0 top 0 g.repetitions small v r.end_below
      ∙ ap (λ z. z % word) (let e : 0 + k ≡ k = omega arith in e) in
    let left : n * total s c ≡ times_of s g * n = ap (λ z. n * z) w ∙ omega arith in
    let right : times_of s g * k ≡ k * times_of s g = omega arith in
    ap (λ z. z % word) left
    ∙ mul-congruent (times_of s g) n k size
    ∙ ap (λ z. z % word)
        (right
          ∙ sym (sum-weight (times_of s g) 0 top top g.repetitions (omega arith) v r.end_below))

total-build_invocation :
    (s top place : ℕ) (gs : List IterationGroupCfc) (m : Counts)
    → top < word
    → ArePatterns (lut_input place gs)
    → AreReady top gs
    → total s (build_invocation_numbers (build_all_iteration_numbers gs) m) % word
      ≡ (total s m + sum (all_times s gs) 0 top) % word
unfolding build_invocation_numbers build_all_iteration_numbers lut_input all_times
total-build_invocation s top place [] m small w r =
    ap (λ z. z % word)
      (let none_more = sum-constant 0 0 top in
        let e : total s m ≡ total s m + sum (λ i. 0) 0 top = omega (arith, none_more) in e)
total-build_invocation s top place (g ∷ gs) m small w r =
    let n = get_number_of_iterations_slow g in
    let c = count_all g.control_flow [] in
    let f = weight (times_of s g) g.repetitions in
    let rest = sum (all_times s gs) 0 top in
    let both = sum-plus f (all_times s gs) 0 top in
    total-build_invocation s top (suc place) gs (add_counts n c m) small w.2 r.1
    ∙ add-congruent (total s (add_counts n c m)) (total s m + n * total s c) rest rest
        (total-add_counts s n c m) refl
    ∙ add-congruent (total s m + n * total s c) (total s m + sum f 0 top) rest rest
        (add-congruent (total s m) (total s m) (n * total s c) (sum f 0 top) refl
          (group_total s top g small w.0 r.0))
        refl
    ∙ ap (λ z. z % word)
        (let e : total s m + sum f 0 top + rest ≡ total s m + sum (all_times s (g ∷ gs)) 0 top =
            omega (arith, both) in
          e)

-- For an invocation whose groups have patterns in order, no two of which overlap, with iterations below a
-- `top` that is a word, and control flows in which everything comes at least once, also as a word: if nothing
-- has been precomputed, and the number of instances of an instruction in the iterations, run in order, is a
-- word, then `precomputeDataStructures` succeeds, and `getNumInstances` gives that number.
pub get_num_instances-precompute :
    (v : InvocationGroupCfc) (s top : ℕ)
    → v.instruction_instance_lut ≡ []
    → ArePatterns (lut_input 0 v.iterations)
    → AreReady top v.iterations
    → top < word
    → length (run_through s v.iterations top) < word
    → (v' : InvocationGroupCfc) × (precompute v ≡ some v')
      × ((get_num_instances v' s).0 ≡ length (run_through s v.iterations top))
unfolding total
get_num_instances-precompute v s top empty w r small words =
    let gs = v.iterations in
    let built = build_invocation_numbers (build_all_iteration_numbers gs) [] in
    let (m, run, tiles) = precompute-Tiles v s top empty w r small words in
    let (at, lt) = count_at-total s 0 built (build_invocation-IsCounts _ [] tt) in
    let added = total-build_invocation s top 0 gs [] small w r in
    let same : sum (all_times s gs) 0 top ≡ length (run_through s gs top) =
      sum-agree (all_times s gs) (times_in s gs) 0 top (λ i le below. sym (
        times_in-all_times s i 0 gs gs (λ j. let e : 0 + j ≡ j = omega arith in ap (get_elem? gs) e)
          w))
      ∙ sym (length-laps_by (times_in s gs) 0 top) in
    (
      precomputed v m,
      run,
      at
          ∙ (let e : total s built ≡ length (run_through s gs top) =
                omega (arith, lt, added, same, words) in
              e),
    )
