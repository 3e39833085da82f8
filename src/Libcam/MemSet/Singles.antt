-- ===== src/Libcam/MemSet/Singles.antt =====
-- Entries split into single accesses keep the accesses.
use cam_alias_checker.Prelude.{
  ℕ, zero, suc, ◌+◌, ◌-◌, ◌*◌, ◌%◌, ◌<◌, ◌≡◌, refl, ap, sym, ◌∙◌, true, [], ◌∷◌, ◌++◌, arith,
  Bool-cases, inl, inr,
}
use cam_alias_checker.Libcam.Machine.{word}
use cam_alias_checker.Libcam.Accesses.{run, run_one, run_split, run-congruent}
use cam_alias_checker.Libcam.MemSet.{
  MemSetEntry, Uninit, MemSet, entry, get_num_instances, is_trivial_pattern, get_split_pattern,
  split_from, split_large_strides, get_access_lower,
}
use cam_alias_checker.Libcam.MemSet.Entry.{entry_accesses, accesses, IsEntry}

-- an entry for one access
single :
    (u : Uninit) (base len n : ℕ)
    → base < word
    → entry_accesses (entry u base 0 len n n) ≡ (base, len) ∷ []
unfolding entry_accesses
single u base len n lt =
    ap (λ k. run k base 0 len) (let e : n + 1 - n ≡ 1 = omega arith in e) ∙ run_one base 0 len lt

-- the first access of a run, and the others
run_first :
    (n base stride len : ℕ)
    → run (suc n) base stride len ≡ (base % word, len) ∷ run n (base + stride) stride len
run_first n base stride len =
    run_split (suc n) 1 base stride len (omega arith)
    ∙ ap (λ r. r ++ run (suc n - 1) ((base + 1 * stride) % word) stride len)
        (run-congruent 1 base (base % word) stride stride len (omega arith) refl
          ∙ run_one (base % word) stride len (omega arith))
    ∙ ap (λ k. (base % word, len) ∷ run k ((base + 1 * stride) % word) stride len)
        (let e : suc n - 1 ≡ n = omega arith in e)
    ∙ ap (λ r. (base % word, len) ∷ r)
        (run-congruent n ((base + 1 * stride) % word) (base + stride) stride stride len
          (omega arith) refl)

split_from-accesses :
    (u : Uninit) (n i : ℕ) (e : MemSetEntry)
    → accesses (split_from u n i e) ≡ run n (e.base + i * e.stride) e.stride e.length
unfolding accesses split_from run
split_from-accesses u zero i e = refl
split_from-accesses u (suc n) i e =
    let at = get_access_lower e i in
    let next : e.base + (i + 1) * e.stride ≡ e.base + i * e.stride + e.stride = omega arith in
    ap (λ r. r ++ accesses (split_from u n (i + 1) e))
      (single u at e.length ((e.start + i) % word) (omega arith))
    ∙ ap (λ r. (at, e.length) ∷ r)
        (split_from-accesses u n (i + 1) e ∙ ap (λ b. run n b e.stride e.length) next)
    ∙ sym (run_first n (e.base + i * e.stride) e.stride e.length)

-- `getSplitPattern` has an entry for each access, in order.
pub get_split_pattern-accesses :
    (u : Uninit) (e : MemSetEntry) → IsEntry e → accesses (get_split_pattern u e) ≡ entry_accesses e
unfolding get_split_pattern entry_accesses
get_split_pattern-accesses u e v =
    let count : get_num_instances e ≡ e.end + 1 - e.start = omega (arith, v.ordered, v.counted) in
    let at : e.base + 0 * e.stride ≡ e.base = omega arith in
    split_from-accesses u (get_num_instances e) 0 e
    ∙ ap (λ k. run k (e.base + 0 * e.stride) e.stride e.length) count
    ∙ ap (λ b. run (e.end + 1 - e.start) b e.stride e.length) at

abbrev pub AllEntries : MemSet → Type 0
AllEntries [] = Unit
AllEntries (e ∷ es) = IsEntry e × AllEntries es

trivial_count :
    (u : Uninit) (e : MemSetEntry) → is_trivial_pattern e ≡ true → get_num_instances e ≡ 2
unfolding is_trivial_pattern
trivial_count u e t = ground arith

halves :
    (u : Uninit) (e : MemSetEntry)
    → IsEntry e
    → get_num_instances e ≡ 2
    → (e.base, e.length) ∷ ((e.base + e.stride) % word, e.length) ∷ [] ≡ entry_accesses e
unfolding entry_accesses run
halves u e v t =
    let count : e.end + 1 - e.start ≡ suc (suc zero) = omega (arith, v.ordered, v.counted, t) in
    let first : (e.base + 0 * e.stride) % word ≡ e.base = omega (arith, v.base) in
    let second : (e.base + suc zero * e.stride) % word ≡ (e.base + e.stride) % word = omega arith in
    rw (count, first, second)

-- `splitLargeStrides` keeps the accesses of a set, in order.
pub split_large_strides-accesses :
    (u : Uninit) (es : MemSet) → AllEntries es → accesses (split_large_strides u es) ≡ accesses es
unfolding split_large_strides accesses
split_large_strides-accesses u [] v = refl
split_large_strides-accesses u (e ∷ es) v = elim (Bool-cases (is_trivial_pattern e)) [
  | inl t ↦ rw (
    t,
    split_large_strides-accesses u es v.1,
    ← halves u e v.0 (trivial_count u e t),
    single u e.base e.length e.start v.0.base,
    single u ((e.base + e.stride) % word) e.length e.end (omega arith),
  )
  | inr t ↦ rw (t, split_large_strides-accesses u es v.1)
]
