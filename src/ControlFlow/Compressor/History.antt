-- ===== src/ControlFlow/Compressor/History.antt =====
-- What a window of the ControlFlowCompressor stands for.
use mathlib.Core.List.{reverse-cons, reverse-reverse}
use cam_alias_checker.Prelude.{
  ℕ, zero, suc, ◌<◌, ◌≡◌, refl, sym, ap, true, List, [], ◌∷◌, ◌++◌, reverse, arith, length, take,
  drop, length-reverse, append_assoc, append-nil, ◌∙◌,
}
use cam_alias_checker.ControlFlow.Pattern.{
  node, Patterns, nil, cons, size, to_list, from_list, new_repetition, matches_backwards,
}
use cam_alias_checker.ControlFlow.Pattern.Expand.{
  expand, expand_all, copies, IsRepeated, AllRepeated,
}
use cam_alias_checker.ControlFlow.Pattern.Equal.{expand-eq_pattern}
use cam_alias_checker.ControlFlow.Compressor.{Window, same_sequence}

-- the symbols of a window, the oldest first
abbrev pub history : Window → List ℕ
history [] = []
history (p ∷ w) = history w ++ expand p

abbrev pub WindowRepeated : Window → Type 0
WindowRepeated [] = Unit
WindowRepeated (p ∷ w) = IsRepeated p × WindowRepeated w

pub history-append : (v w : Window) → history (v ++ w) ≡ history w ++ history v
history-append [] w = sym (append-nil (history w))
history-append (p ∷ v) w = rw (history-append v w, append_assoc)

pub history-split : (n : ℕ) (w : Window) → history w ≡ history (drop n w) ++ history (take n w)
history-split zero w = sym (append-nil (history w))
history-split (suc n) [] = refl
history-split (suc n) (p ∷ w) =
    ap (λ h. h ++ expand p) (history-split n w)
    ∙ append_assoc (history (drop n w)) (history (take n w)) (expand p)

pub expand_all-append :
    (v w : Window)
    → expand_all (from_list (v ++ w)) ≡ expand_all (from_list v) ++ expand_all (from_list w)
unfolding expand
expand_all-append [] w = refl
expand_all-append (p ∷ v) w =
    rw (expand_all-append v w)
      (sym (append_assoc (expand p) (expand_all (from_list v)) (expand_all (from_list w))))

pub expand_all-reverse : (w : Window) → expand_all (from_list (reverse w)) ≡ history w
unfolding expand
expand_all-reverse [] = refl
expand_all-reverse (p ∷ w) = rw (reverse-cons, expand_all-append, append-nil, expand_all-reverse w)

pub from_list-to_list : (ps : Patterns) → from_list (to_list ps) ≡ ps
from_list-to_list nil = refl
from_list-to_list (cons p ps) = ap (cons p) (from_list-to_list ps)

pub length-to_list : (ps : Patterns) → length (to_list ps) ≡ size ps
length-to_list nil = refl
length-to_list (cons p ps) = ap suc (length-to_list ps)

pub history-to_list : (ps : Patterns) → history (reverse (to_list ps)) ≡ expand_all ps
history-to_list ps =
    sym (expand_all-reverse (reverse (to_list ps))) ∙ rw (reverse-reverse, from_list-to_list)

pub history-matches :
    (l w : Window) → matches_backwards l w ≡ true → history (take (length l) w) ≡ history l
unfolding matches_backwards
history-matches [] w h = refl
history-matches (p ∷ l) [] h = ground arith
history-matches (p ∷ l) (s ∷ w) h = ground (arith, history-matches l w, expand-eq_pattern s p)

pub history-same :
    (n : ℕ) (v w : Window) → same_sequence n v w ≡ true → history (take n v) ≡ history (take n w)
unfolding same_sequence
history-same zero v w h = refl
history-same (suc n) [] w h = ground arith
history-same (suc n) (p ∷ v) [] h = ground arith
history-same (suc n) (p ∷ v) (q ∷ w) h = ground (arith, history-same n v w, expand-eq_pattern p q)

pub WindowRepeated-take : (n : ℕ) (w : Window) → WindowRepeated w → WindowRepeated (take n w)
WindowRepeated-take zero w h = tt
WindowRepeated-take (suc n) [] h = tt
WindowRepeated-take (suc n) (p ∷ w) h = (h.0, WindowRepeated-take n w h.1)

pub WindowRepeated-drop : (n : ℕ) (w : Window) → WindowRepeated w → WindowRepeated (drop n w)
WindowRepeated-drop zero w h = h
WindowRepeated-drop (suc n) [] h = tt
WindowRepeated-drop (suc n) (p ∷ w) h = WindowRepeated-drop n w h.1

pub WindowRepeated-append :
    (v w : Window) → WindowRepeated v → WindowRepeated w → WindowRepeated (v ++ w)
WindowRepeated-append [] w h k = k
WindowRepeated-append (p ∷ v) w h k = (h.0, WindowRepeated-append v w h.1 k)

pub WindowRepeated-reverse : (w : Window) → WindowRepeated w → WindowRepeated (reverse w)
WindowRepeated-reverse [] h = tt
WindowRepeated-reverse (p ∷ w) h =
    rw reverse-cons
      (WindowRepeated-append (reverse w) (p ∷ []) (WindowRepeated-reverse w h.1) (h.0, tt))

pub AllRepeated-from_list : (w : Window) → WindowRepeated w → AllRepeated (from_list w)
unfolding IsRepeated
AllRepeated-from_list [] h = tt
AllRepeated-from_list (p ∷ w) h = (h.0, AllRepeated-from_list w h.1)

-- What one compression may do to a window.
pub record Compressed (w w' : Window) : Type 0 where
  pub keeps : history w' ≡ history w
  pub shorter : length w' < length w
  pub repeated : WindowRepeated w'

pub expand-node :
    (ps : Patterns) (n s : ℕ) → 0 < size ps → expand (node ps n s) ≡ copies n (expand_all ps)
unfolding expand
expand-node nil n s h = absurd (omega arith)
expand-node (cons p ps) n s h = refl

pub size-from_list : (w : Window) → size (from_list w) ≡ length w
size-from_list [] = refl
size-from_list (p ∷ w) = ap suc (size-from_list w)

pub expand-new_repetition :
    (uninit : ℕ) (w : Window)
    → 0 < length w
    → expand (new_repetition uninit (reverse w) 2) ≡ history w ++ history w
unfolding copies
expand-new_repetition uninit w h = rw (
  expand-node (from_list (reverse w)) 2 uninit
      (omega (arith, size-from_list (reverse w), length-reverse w)),
  expand_all-reverse w,
  append-nil,
)
