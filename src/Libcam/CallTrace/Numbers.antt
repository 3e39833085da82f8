-- ===== src/Libcam/CallTrace/Numbers.antt =====
-- What `buildLut` of libcam/src/CallTrace.cpp leaves: the group of each instance of a call, and the number of
-- times that each instruction comes in it.
use cam_alias_checker.Prelude.{
  ℕ, zero, suc, ◌+◌, ◌*◌, ◌%◌, ◌≡◌, refl, ap, sym, ◌∙◌, some, List, [], ◌∷◌, ◌++◌, get_elem?, ◌>>=◌,
  arith,
}
use native.Mathlib.Nat.{mod-eq_of_lt}
use cam_alias_checker.Libcam.Machine.{word, add-congruent}
use cam_alias_checker.Libcam.CompressionPattern.{
  CompressionPattern, Counts, add_counts, get_number_of_instances_map,
}
use cam_alias_checker.Libcam.CompressionPattern.Count.{
  expand, occurrences, occurrences-append, total, total-add_counts, total-instances,
}
use cam_alias_checker.Libcam.CompressionPattern.Ordered.{
  IsCounts, count_at, count_at-total, add_counts-IsCounts,
}
use cam_alias_checker.Libcam.Repetition.Built.{build_lut, lookup_built}
use cam_alias_checker.Libcam.Repetition.Built.Lookup.{ArePatterns, data_in, lookup_built-build_lut}
use cam_alias_checker.Libcam.CallTrace.{
  CallTraceInstanceGroup, CallTraceCall, count_all, build_number_of_instances_lut, lut_input,
  build_numbers, build_call_lut, get_instance_group,
}

-- the symbols that a control flow stands for
unfoldable pub expand_flow : List CompressionPattern → List ℕ
expand_flow [] = []
expand_flow (p ∷ ps) = expand p ++ expand_flow ps

pub count_all-IsCounts :
    (ps : List CompressionPattern) (m : Counts) → IsCounts 0 m → IsCounts 0 (count_all ps m)
unfolding count_all
count_all-IsCounts [] m w = w
count_all-IsCounts (p ∷ ps) m w =
    let inner = get_number_of_instances_map p in
    count_all-IsCounts ps (add_counts 1 inner m) (add_counts-IsCounts 1 inner m w)

total-count_all :
    (s : ℕ) (ps : List CompressionPattern) (m : Counts)
    → total s (count_all ps m) % word ≡ (total s m + occurrences s (expand_flow ps)) % word
unfolding count_all expand_flow occurrences
total-count_all s [] m = ap (λ z. z % word) (let e : total s m ≡ total s m + 0 = omega arith in e)
total-count_all s (p ∷ ps) m =
    let inner = get_number_of_instances_map p in
    let own = occurrences s (expand p) in
    let rest = occurrences s (expand_flow ps) in
    total-count_all s ps (add_counts 1 inner m)
    ∙ add-congruent (total s (add_counts 1 inner m)) (total s m + own) rest rest
        (total-add_counts s 1 inner m
          ∙ add-congruent (total s m) (total s m) (1 * total s inner) own refl (
              ap (λ z. z % word) (let e : 1 * total s inner ≡ total s inner = omega arith in e)
              ∙ total-instances s p))
        refl
    ∙ ap (λ z. z % word)
        (let e : total s m + own + rest ≡ total s m + (own + rest) = omega arith in e)
    ∙ ap (λ z. (total s m + z) % word) (sym (occurrences-append s (expand p) (expand_flow ps)))

-- The lookup of a group gives each symbol the number of times it comes in the control flow, as a word.
pub count_at-count_all :
    (s : ℕ) (ps : List CompressionPattern)
    → count_at s (count_all ps []) ≡ occurrences s (expand_flow ps) % word
unfolding total
count_at-count_all s ps =
    let m = count_all ps [] in
    let (e, lt) = count_at-total s 0 m (count_all-IsCounts ps [] tt) in
    let k = occurrences s (expand_flow ps) in
    e
    ∙ sym (mod-eq_of_lt lt)
    ∙ total-count_all s ps []
    ∙ ap (λ z. z % word) (let e' : 0 + k ≡ k = omega arith in e')

built_at :
    (gs : List CallTraceInstanceGroup) (i : ℕ) (g : CallTraceInstanceGroup)
    → get_elem? gs i ≡ some g
    → get_elem? (build_numbers gs) i ≡ some (build_number_of_instances_lut g)
unfolding build_numbers
built_at [] i g e = absurd (ground (arith, e))
built_at (h ∷ gs) zero g e = ap (λ o. o >>= λ h'. some (build_number_of_instances_lut h')) e
built_at (h ∷ gs) (suc i) g e = built_at gs i g e

-- In a call whose groups are patterns in order, no two of which overlap, and which has no lookup yet, the
-- lookups that `buildLut` makes lead from an instance of a group to that group, and tell how many times each
-- instruction comes in its control flow, as a word.
pub get_instance_group-build_call_lut :
    (c : CallTraceCall) (n i s : ℕ) (g : CallTraceInstanceGroup)
    → c.lut ≡ []
    → ArePatterns (lut_input 0 c.call_instances)
    → data_in n (lut_input 0 c.call_instances) ≡ some i
    → get_elem? c.call_instances i ≡ some g
    → (h : CallTraceInstanceGroup) × (get_instance_group (build_call_lut c) n ≡ some h)
      × (h.repetitions ≡ g.repetitions)
      × (h.control_flow ≡ g.control_flow)
      × (count_at s h.num_instances_lut ≡ occurrences s (expand_flow g.control_flow) % word)
unfolding get_instance_group build_call_lut
get_instance_group-build_call_lut c n i s g empty apart at found =
    let ps = lut_input 0 c.call_instances in
    let look : lookup_built n (build_lut ps c.lut) ≡ some i =
      ap (λ z. lookup_built n (build_lut ps z)) empty ∙ lookup_built-build_lut n ps i apart at in
    (
      build_number_of_instances_lut g,
      rw (look, built_at c.call_instances i g found) refl,
      refl,
      refl,
      count_at-count_all s g.control_flow,
    )
