-- ===== src/ControlFlow/Compressor/Match.antt =====
-- `match` of the ControlFlowCompressor keeps what the window stands for.
use native.Mathlib.Nat.{mod-eq_of_lt}
use native.Mathlib.Numerals.{add-one}
use cam_alias_checker.Prelude.{
  ℕ, zero, suc, ◌+◌, ◌^◌, ◌<◌, ◌≤◌, ◌≡◌, subst, eq_of_some-eq, refl, sym, ap, true, Option, none,
  some, [], ◌∷◌, ◌++◌, reverse, arith, length, take, drop, length-reverse, append_assoc, ◌∙◌,
  length-append, length-drop, Bool-cases, inl, inr, ◌≡⟨◌⟩◌, ◌∎, get_elem?, ◌==◌, ◌&&◌,
}
use cam_alias_checker.ControlFlow.Pattern.{Pattern, node, Patterns, size, to_list, inc_repetitions}
use cam_alias_checker.ControlFlow.Pattern.Expand.{
  expand_all, copies, copies-snoc, copies_bounds, length-expand_all_pos, IsRepeated,
}
use cam_alias_checker.ControlFlow.Compressor.{
  Window, matches_at, pattern_matches_symbols, inc_front, match_from,
}
use cam_alias_checker.ControlFlow.Compressor.History.{
  history-split, length-to_list, history-to_list, history-matches, WindowRepeated-drop, Compressed,
  expand-node, history, WindowRepeated,
}

get_elem?-drop :
    (i : ℕ) (w : Window) {p : Pattern} → get_elem? w i ≡ some p → drop i w ≡ p ∷ drop (suc i) w
get_elem?-drop i [] h = ground arith
get_elem?-drop zero (q ∷ w) h = ground arith
get_elem?-drop (suc i) (q ∷ w) h = get_elem?-drop i w h

history-pattern :
    (i : ℕ) (ps : Patterns) (n s : ℕ) (w : Window)
    → i ≡ size ps
    → pattern_matches_symbols (node ps n s) w ≡ true
    → history (take i w) ≡ expand_all ps
unfolding pattern_matches_symbols
history-pattern i ps n s w e h =
    let len = length-reverse (to_list ps) ∙ length-to_list ps in
    ap (λ k. history (take k w)) (e ∙ sym len)
    ∙ history-matches (reverse (to_list ps)) w h
    ∙ history-to_list ps

-- The pattern at index `i` stands for the `i` younger patterns, repeated.
record Matched (i : ℕ) (w : Window) (ps : Patterns) (n s : ℕ) : Type 0 where
  at_index : get_elem? w i ≡ some (node ps n s)
  sized : i ≡ size ps
  younger : history (take i w) ≡ expand_all ps

matches_at-Matched :
    (i : ℕ) (w : Window)
    → matches_at i w ≡ true
    → (ps : Patterns) × (n : ℕ) × (s : ℕ) × Matched i w ps n s
unfolding matches_at
matches_at-Matched i w h = go (get_elem? w i) refl
  where
    go :
        (o : Option Pattern)
        → get_elem? w i ≡ o
        → (ps : Patterns) × (n : ℕ) × (s : ℕ) × Matched i w ps n s
    go none e = cc (rw (e, matches_at) at h)
    go (some (node ps n s)) e =
        let t : ((i == size ps) && pattern_matches_symbols (node ps n s) w) ≡ true =
          rw (e, matches_at) at h in
        (
          ps,
          n,
          s,
          record {
            at_index = e;
            sized = ground arith;
            younger = history-pattern i ps n s w (ground arith) (ground arith);
          },
        )

length-history-drop : (n : ℕ) (w : Window) → length (history (drop n w)) ≤ length (history w)
length-history-drop n w =
    rw (history-split n w) (omega (arith, length-append (history (drop n w)) (history (take n w))))

module _ {i n s : ℕ} {w : Window} {ps : Patterns} (m : Matched i w ps n s) (pos : 0 < i) where
  drop-Matched : drop i w ≡ node ps n s ∷ drop (suc i) w
  drop-Matched = get_elem?-drop i w m.at_index

  history-Matched : history w ≡ history (drop (suc i) w) ++ copies (suc n) (expand_all ps)
  history-Matched =
      history w
      ≡⟨ history-split i w ⟩ history (drop i w) ++ history (take i w)
      ≡⟨ (rw (
        drop-Matched,
        m.younger,
        expand-node ps n s (omega (arith, m.sized)),
        append_assoc,
        copies-snoc n (expand_all ps),
      )) ⟩
        history (drop (suc i) w) ++ copies (suc n) (expand_all ps) ∎

  IsRepeated-Matched : WindowRepeated w → IsRepeated (node ps n s) × WindowRepeated (drop (suc i) w)
  IsRepeated-Matched r = rw drop-Matched at (WindowRepeated-drop i w r)

  -- `incRepetitions` does not wrap.
  counts_up : WindowRepeated w → length (history w) < 2 ^ 64 → n + 1 < 2 ^ 64
  unfolding IsRepeated
  counts_up r lt =
      let xs = expand_all ps in
      let one = length-expand_all_pos ps (IsRepeated-Matched r).0.1 (omega (arith, m.sized)) in
      let e = ap length history-Matched in
      let a = length-append (history (drop (suc i) w)) (copies (suc n) xs) in
      let c = copies_bounds (suc n) (2 ^ 64) xs (omega arith) one (omega arith) in omega arith

  match_at-Compressed :
      WindowRepeated w → length (history w) < 2 ^ 64 → Compressed w (inc_front (drop i w))
  unfolding inc_front inc_repetitions IsRepeated
  match_at-Compressed r lt =
      let c = counts_up r lt in
      rw (drop-Matched, mod-eq_of_lt c)
        (record {
          keeps =
              rw (add-one, expand-node ps (suc n) s (omega (arith, m.sized))) (sym history-Matched);
          shorter = omega (arith, ap length drop-Matched, length-drop i w, length-drop (suc i) w);
          repeated = (((λ _. omega arith), (IsRepeated-Matched r).0.1), (IsRepeated-Matched r).1);
        })

module _ (w : Window) (r : WindowRepeated w) (lt : length (history w) < 2 ^ 64) where
  pub match_from-Compressed : (i : ℕ) {w' : Window} → match_from i w ≡ some w' → Compressed w w'
  unfolding match_from
  match_from-Compressed zero h = ground arith
  match_from-Compressed (suc i) h = elim (Bool-cases (matches_at (suc i) w)) [
    | inl e ↦
        let (ps, n, s, m) = matches_at-Matched (suc i) w e in
        subst (Compressed w) (eq_of_some-eq (rw e at h)) (match_at-Compressed m (omega arith) r lt)
    | inr e ↦ match_from-Compressed i (rw e at h)
  ]
