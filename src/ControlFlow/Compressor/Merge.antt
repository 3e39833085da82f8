-- ===== src/ControlFlow/Compressor/Merge.antt =====
-- `merge` of the ControlFlowCompressor keeps what the window stands for.
use cam_alias_checker.Prelude.{
  ℕ, zero, suc, ◌+◌, ◌*◌, ◌<◌, ◌≤◌, ◌≡◌, subst, eq_of_some-eq, sym, ap, true, some, [], ◌∷◌, ◌++◌,
  reverse, arith, length, take, drop, drop-add, append_assoc, ◌∙◌, length-take, length-drop,
  Bool-cases, inl, inr, ◌≡⟨◌⟩◌, ◌∎,
}
use cam_alias_checker.ControlFlow.Pattern.{new_repetition}
use cam_alias_checker.ControlFlow.Pattern.Expand.{IsRepeated}
use cam_alias_checker.ControlFlow.Compressor.{
  Window, same_sequence, is_repeated_sequence, merge_from,
}
use cam_alias_checker.ControlFlow.Compressor.History.{
  history-split, history-same, WindowRepeated-take, WindowRepeated-drop, WindowRepeated-reverse,
  AllRepeated-from_list, Compressed, expand-new_repetition, history, WindowRepeated,
}

-- The halves of a window in which a sequence is repeated.
history-repeated :
    (n : ℕ) (w : Window)
    → is_repeated_sequence n w ≡ true
    → history w ≡ history (drop (n * 2) w) ++ (history (take n w) ++ history (take n w))
unfolding is_repeated_sequence
history-repeated n w h =
    history w
    ≡⟨ history-split n w ⟩ history (drop n w) ++ history (take n w)
    ≡⟨ ap (λ v. v ++ history (take n w)) (history-split n (drop n w)) ⟩
      history (drop n (drop n w)) ++ history (take n (drop n w)) ++ history (take n w)
    ≡⟨ (rw (← history-same n w (drop n w) h, ← drop-add n n w, append_assoc)) ⟩
      history (drop (n + n) w) ++ (history (take n w) ++ history (take n w))
    ≡⟨ ap (λ k. history (drop k w) ++ (history (take n w) ++ history (take n w))) (omega arith) ⟩
      history (drop (n * 2) w) ++ (history (take n w) ++ history (take n w)) ∎

same_sequence-length :
    (n : ℕ) (v w : Window) → same_sequence n v w ≡ true → (n ≤ length v) × (n ≤ length w)
unfolding same_sequence
same_sequence-length zero v w h = omega arith
same_sequence-length (suc n) [] w h = ground arith
same_sequence-length (suc n) (p ∷ v) [] h = ground arith
same_sequence-length (suc n) (p ∷ v) (q ∷ w) h = ground (arith, same_sequence-length n v w)

IsRepeated-new_repetition :
    (uninit : ℕ) (w : Window) → WindowRepeated w → IsRepeated (new_repetition uninit (reverse w) 2)
unfolding IsRepeated
IsRepeated-new_repetition uninit w h =
    ((λ _. omega arith), AllRepeated-from_list (reverse w) (WindowRepeated-reverse w h))

merge_at-Compressed :
    (uninit n : ℕ) (w : Window)
    → WindowRepeated w
    → 0 < n
    → is_repeated_sequence n w ≡ true
    → Compressed w (new_repetition uninit (reverse (take n w)) 2 ∷ drop (n * 2) w)
unfolding is_repeated_sequence
merge_at-Compressed uninit n w r pos h =
    let l = same_sequence-length n w (drop n w) h in
    let lt = length-take n w in
    let ld = length-drop n w in
    record {
      keeps =
          ap (λ v. history (drop (n * 2) w) ++ v)
            (expand-new_repetition uninit (take n w) (omega arith))
          ∙ sym (history-repeated n w h);
      shorter = omega (arith, length-drop (n * 2) w);
      repeated = (
        IsRepeated-new_repetition uninit (take n w) (WindowRepeated-take n w r),
        WindowRepeated-drop (n * 2) w r,
      );
    }

pub merge_from-Compressed :
    (uninit k : ℕ) (w w' : Window)
    → WindowRepeated w
    → merge_from uninit k w ≡ some w'
    → Compressed w w'
unfolding merge_from
merge_from-Compressed uninit zero w w' r h = ground arith
merge_from-Compressed uninit (suc k) w w' r h = elim (Bool-cases (is_repeated_sequence (suc k) w)) [
  | inl e ↦
      subst (Compressed w) (eq_of_some-eq (rw e at h))
        (merge_at-Compressed uninit (suc k) w r (omega arith) e)
  | inr e ↦ merge_from-Compressed uninit k w w' r (rw e at h)
]
