-- ===== src/ControlFlow/Pattern/Expand.antt =====
-- What a pattern stands for, and that `decompress` computes it.
use cam_alias_checker.Prelude.{
  ℕ, zero, suc, ◌*◌, ◌^◌, ◌<◌, ◌≡◌, refl, sym, ap, some, List, [], ◌∷◌, ◌++◌, arith, length,
  length-append, append_assoc, append-nil, lt→ltb, if◌then◌else◌, ◌∙◌,
}
use native.Mathlib.Nat.{mul-pos}
use cam_alias_checker.ControlFlow.Pattern.{
  Pattern, node, Patterns, nil, cons, size, non_empty, rounds, repeat_counted, decompress,
  decompress_all,
}

unfoldable pub copies : ℕ → List ℕ → List ℕ
copies zero xs = []
copies (suc n) xs = xs ++ copies n xs

unfoldable mutual
  pub expand : Pattern → List ℕ
  expand (node ps n s) = if non_empty ps then copies n (expand_all ps) else s ∷ []

  pub expand_all : Patterns → List ℕ
  expand_all nil = []
  expand_all (cons p ps) = expand p ++ expand_all ps

-- Every sequence in it is repeated at least once.
unfoldable mutual
  pub IsRepeated : Pattern → Type 0
  IsRepeated (node ps n s) = (0 < size ps → 0 < n) × AllRepeated ps

  pub AllRepeated : Patterns → Type 0
  AllRepeated nil = Unit
  AllRepeated (cons p ps) = IsRepeated p × AllRepeated ps

pub length-copies : (n : ℕ) (xs : List ℕ) → length (copies n xs) ≡ n * length xs
unfolding copies
length-copies zero xs = omega arith
length-copies (suc n) xs = omega (arith, length-append xs (copies n xs), length-copies n xs)

pub copies-snoc : (n : ℕ) (xs : List ℕ) → copies n xs ++ xs ≡ copies (suc n) xs
unfolding copies
copies-snoc zero xs = sym (append-nil xs)
copies-snoc (suc n) xs = append_assoc xs (copies n xs) xs ∙ ap (λ ys. xs ++ ys) (copies-snoc n xs)

rounds-copies : (n : ℕ) (xs : List ℕ) → rounds n (some xs) ≡ some (copies n xs)
unfolding rounds copies
rounds-copies zero xs = refl
rounds-copies (suc n) xs = rw (rounds-copies n xs)

mutual
  unfolding expand IsRepeated copies

  length-expand_pos : (p : Pattern) → IsRepeated p → 0 < length (expand p)
  length-expand_pos (node nil n s) h = omega arith
  length-expand_pos (node (cons p ps) n s) h =
      let m = length-copies n (expand p ++ expand_all ps) in
      let k = length-append (expand p) (expand_all ps) in
      let i = length-expand_pos p h.1.0 in rw m (mul-pos (h.0 (omega arith)) (omega arith))

pub length-expand_all_pos :
    (ps : Patterns) → AllRepeated ps → 0 < size ps → 0 < length (expand_all ps)
unfolding expand IsRepeated
length-expand_all_pos nil h pos = absurd (omega arith)
length-expand_all_pos (cons p ps) h pos =
    omega (arith, length-expand_pos p h.0, length-append (expand p) (expand_all ps))

-- Neither the number of repetitions nor one round exceeds the whole.
pub copies_bounds :
    (n m : ℕ) (xs : List ℕ)
    → 0 < n
    → 0 < length xs
    → length (copies n xs) < m
    → (n < m) × (length xs < m)
copies_bounds n m xs hn hx h = let e = length-copies n xs in (grind arith, grind arith)

repeat_counted-copies :
    (n : ℕ) (xs : List ℕ) → n < 2 ^ 32 → repeat_counted n (some xs) ≡ some (copies n xs)
unfolding repeat_counted
repeat_counted-copies n xs h = rw (lt→ltb n (2 ^ 32) h) (rounds-copies n xs)

mutual
  unfolding decompress expand IsRepeated

  decompress_eq :
      (p : Pattern) → IsRepeated p → length (expand p) < 2 ^ 32 → decompress p ≡ some (expand p)
  decompress_eq (node nil n s) h lt = refl
  decompress_eq (node (cons p ps) n s) h lt =
      let xs = expand p ++ expand_all ps in
      let k = length-append (expand p) (expand_all ps) in
      let b =
        copies_bounds n (2 ^ 32) xs (h.0 (omega arith)) (omega (arith, length-expand_pos p h.1.0))
          lt in
      rw (decompress_eq p h.1.0 (omega arith), decompress_all_eq ps h.1.1 (omega arith))
        (repeat_counted-copies n xs b.0)

  decompress_all_eq :
      (ps : Patterns)
      → AllRepeated ps
      → length (expand_all ps) < 2 ^ 32
      → decompress_all ps ≡ some (expand_all ps)
  decompress_all_eq nil h lt = refl
  decompress_all_eq (cons p ps) h lt =
      let k = length-append (expand p) (expand_all ps) in
      rw (decompress_eq p h.0 (omega arith), decompress_all_eq ps h.1 (omega arith))

-- Below 2 ^ 32 symbols, `decompress` ends and gives the symbols that the pattern stands for.
pub decompress-expand :
    (p : Pattern) → IsRepeated p → length (expand p) < 2 ^ 32 → decompress p ≡ some (expand p)
decompress-expand p = decompress_eq p
