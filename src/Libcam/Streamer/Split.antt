-- ===== src/Libcam/Streamer/Split.antt =====
-- The split of the entries read into a chunk and a remainder.
use cam_alias_checker.Prelude.{
  ℕ, ◌+◌, ◌-◌, ◌≤◌, ◌<◌, ◌≡◌, refl, ap, sym, subst, ◌∙◌, true, [], ◌∷◌, ◌++◌, append-nil,
  append_assoc, arith, Bool-cases, inl, inr, ltb,
}
use cam_alias_checker.Libcam.Machine.{word, sub_word}
use cam_alias_checker.Libcam.MemSet.{MemSetEntry, Uninit, MemSet, split_off_end}
use cam_alias_checker.Libcam.MemSet.Entry.{entry_accesses, accesses, IsEntry, split_off_end-IsSplit}
use cam_alias_checker.Libcam.MemSet.Contiguous.{IsContiguous, IsContiguous-le}
use cam_alias_checker.Libcam.Streamer.{
  back_end, get_num_buffered_instances, lower_bound, split_straddle, split_chunk,
}

-- `c` has the instances `a` to below `m` of `es`, and `r` those up to below `b`.
pub record IsSplitAt (a m b : ℕ) (es c r : MemSet) : Type 0 where
  pub front : IsContiguous a m c
  pub rest : IsContiguous m b r
  pub same : accesses c ++ accesses r ≡ accesses es

pub back_end-IsContiguous :
    (e : MemSetEntry) (es : MemSet) (a b : ℕ)
    → IsContiguous a b (e ∷ es)
    → (back_end e es + 1 ≡ b) × (b < word) × (e.start < b)
unfolding back_end
back_end-IsContiguous e [] a b v =
    (v.2, omega (arith, v.2, v.1.counted), omega (arith, v.2, v.1.ordered))
back_end-IsContiguous e (f ∷ es) a b v =
    let r = back_end-IsContiguous f es (e.end + 1) b v.2 in
    (r.0, r.1, omega (arith, r.2, v.2.0, v.1.ordered))

-- The instances buffered are counted as they are numbered.
pub get_num_buffered_instances-IsContiguous :
    (a b : ℕ) (es : MemSet) → IsContiguous a b es → get_num_buffered_instances es ≡ b - a
unfolding get_num_buffered_instances
get_num_buffered_instances-IsContiguous a b [] v = omega (arith, v)
get_num_buffered_instances-IsContiguous a b (e ∷ es) v =
    let r = back_end-IsContiguous e es a b v in omega (arith, r.0, r.1, r.2, v.0)

module _ (u : Uninit) where
  -- The straddling entry is cut in two.
  cut-IsSplitAt :
      (a b last : ℕ) (e : MemSetEntry) (es : MemSet)
      → IsContiguous a b (e ∷ es)
      → a ≤ last
      → last < e.end
      → let s = split_off_end u (e.end - last) e in
        IsSplitAt a (last + 1) b (e ∷ es) (s.0 ∷ []) (s.1 ∷ es)
  unfolding accesses
  cut-IsSplitAt a b last e es v la lt =
      let s = split_off_end u (e.end - last) e in
      let h = split_off_end-IsSplit u e v.1 (e.end - last) (omega arith) (omega (arith, v.0)) in
      record {
        front = (h.left_start ∙ v.0, h.left_valid, omega (arith, h.left_end));
        rest = (
          omega (arith, h.new_start),
          h.new_valid,
          subst (λ k. IsContiguous (k + 1) b es) (sym h.new_end) v.2,
        );
        same =
            ap (λ z. z ++ (entry_accesses s.1 ++ accesses es)) (append-nil (entry_accesses s.0))
            ∙ sym (append_assoc (entry_accesses s.0) (entry_accesses s.1) (accesses es))
            ∙ ap (λ z. z ++ accesses es) (sym h.accesses);
      }

  -- An entry ahead of the one that straddles.
  before-IsSplitAt :
      (a m b : ℕ) (e : MemSetEntry) (es c r : MemSet)
      → e.start ≡ a
      → IsEntry e
      → IsSplitAt (e.end + 1) m b es c r
      → IsSplitAt a m b (e ∷ es) (e ∷ c) r
  unfolding accesses
  before-IsSplitAt a m b e es c r p v h = record {
    front = (p, v, h.front);
    rest = h.rest;
    same =
        append_assoc (entry_accesses e) (accesses c) (accesses r)
        ∙ ap (λ z. entry_accesses e ++ z) h.same;
  }

  -- The split gives the instances up to the last one asked for, and the later ones.
  pub split_chunk-IsSplitAt :
      (a b last : ℕ) (es : MemSet)
      → IsContiguous a b es
      → a ≤ last
      → last < b
      → IsSplitAt a (last + 1) b es (split_chunk u last es).0 (split_chunk u last es).1
  unfolding split_chunk lower_bound split_straddle accesses
  split_chunk-IsSplitAt a b last [] v la lb = absurd (omega (arith, v))
  split_chunk-IsSplitAt a b last (e ∷ es) v la lb = elim (Bool-cases (ltb e.end last)) [
    | inl p ↦ rw p (
        before-IsSplitAt a (last + 1) b e es (split_chunk u last es).0 (split_chunk u last es).1 v.0
          v.1 (split_chunk-IsSplitAt (e.end + 1) b last es v.2 (ground arith) lb))
    | inr p ↦ elim (Bool-cases (ltb last e.end)) [
      | inl q ↦
          let d : sub_word e.end last ≡ e.end - last = ground (arith, v.1.counted) in
          rw (p, q, d) (cut-IsSplitAt a b last e es v la (ground arith))
      | inr q ↦
          let m : e.end ≡ last = ground arith in
          rw (p, q)
            record {
              front = (v.0, v.1, ap (λ k. k + 1) m);
              rest = subst (λ k. IsContiguous (k + 1) b es) m v.2;
              same = ap (λ z. z ++ accesses es) (append-nil (entry_accesses e));
            }
    ]
  ]

  -- If all that is read is asked for, the chunk has it all.
  pub split_all :
      (a b last : ℕ) (es : MemSet)
      → IsContiguous a b es
      → b ≤ last
      → split_chunk u last es ≡ (es, [])
  unfolding split_chunk lower_bound split_straddle
  split_all a b last [] v lb = refl
  split_all a b last (e ∷ es) v lb =
      let p : ltb e.end last ≡ true = ground (arith, IsContiguous-le (e.end + 1) b es v.2) in
      let r = split_all (e.end + 1) b last es v.2 lb in rw p (ap (λ z. (e ∷ z.0, z.1)) r)

-- The parts of entries that number their instances without a gap.
pub IsContiguous-parts :
    (a b : ℕ) (es fs : MemSet)
    → IsContiguous a b (es ++ fs)
    → (m : ℕ) × IsContiguous a m es × IsContiguous m b fs
IsContiguous-parts a b [] fs v = (a, refl, v)
IsContiguous-parts a b (e ∷ es) fs v =
    let r = IsContiguous-parts (e.end + 1) b es fs v.2 in (r.0, (v.0, v.1, r.1), r.2)
