-- ===== src/ControlFlow/Compressor/Reduce.antt =====
-- `while( match() || merge() );` of `insertSymbol`: the loop ends, and keeps what the window stands for.
use cam_alias_checker.Prelude.{
  ℕ, zero, suc, ◌+◌, ◌-◌, ◌/◌, ◌^◌, ◌<◌, ◌≤◌, min, ◌≡◌, refl, none, some, [], ◌∷◌, arith, length,
  Option-cases, inl, inr, ◌∙◌,
}
use cam_alias_checker.ControlFlow.Compressor.{Window, match, merge, compress, compress_all}
use cam_alias_checker.ControlFlow.Compressor.History.{history, WindowRepeated, Compressed}
use cam_alias_checker.ControlFlow.Compressor.Match.{match_from-Compressed}
use cam_alias_checker.ControlFlow.Compressor.Merge.{merge_from-Compressed}

module _ (uninit max : ℕ) where
  match-Compressed :
      (w : Window)
      → WindowRepeated w
      → length (history w) < 2 ^ 64
      → {w' : Window} → match max w ≡ some w'
      → Compressed w w'
  unfolding match
  match-Compressed [] r lt h = ground arith
  match-Compressed (p ∷ w) r lt h =
      match_from-Compressed (p ∷ w) r lt (min (max / 2 + 1) (length (p ∷ w) - 1)) h

  merge-Compressed :
      (w : Window) → WindowRepeated w → {w' : Window} → merge uninit w ≡ some w' → Compressed w w'
  unfolding merge
  merge-Compressed w r {w'} h = merge_from-Compressed uninit (length w / 2) w w' r h

  compress-Compressed :
      (w : Window)
      → WindowRepeated w
      → length (history w) < 2 ^ 64
      → {w' : Window} → compress uninit max w ≡ some w'
      → Compressed w w'
  unfolding compress
  compress-Compressed w r lt h = elim (Option-cases (match max w)) [
    | inl e ↦ merge-Compressed w r (rw (e, compress) at h)
    | inr (v, e) ↦ match-Compressed w r lt (e ∙ (rw (e, compress) at h))
  ]

  -- The rounds are enough, and nothing is left to match or to merge.
  pub record Reduced (w w' : Window) : Type 0 where
    pub keeps : history w' ≡ history w
    pub no_longer : length w' ≤ length w
    pub repeated : WindowRepeated w'
    pub settled : compress uninit max w' ≡ none

  pub compress_all-Reduced :
      (fuel : ℕ) (w : Window)
      → length w ≤ fuel
      → WindowRepeated w
      → length (history w) < 2 ^ 64
      → Reduced w (compress_all fuel uninit max w)
  unfolding compress_all
  compress_all-Reduced zero [] le r lt = record {
    keeps = refl;
    no_longer = omega arith;
    repeated = r;
    settled = refl;
  }
  compress_all-Reduced zero (p ∷ w) le r lt = absurd (omega arith)
  compress_all-Reduced (suc fuel) w le r lt = elim (Option-cases (compress uninit max w)) [
    | inl e ↦
        rw (e, compress_all)
          (record { keeps = refl; no_longer = omega arith; repeated = r; settled = e })
    | inr (v, e) ↦
        let c = compress-Compressed w r lt e in
        let ih =
          compress_all-Reduced fuel v (omega (arith, c.shorter)) c.repeated (rw c.keeps lt) in
        rw (e, compress_all)
          (record {
            keeps = ih.keeps ∙ c.keeps;
            no_longer = omega (arith, ih.no_longer, c.shorter);
            repeated = ih.repeated;
            settled = ih.settled;
          })
  ]
