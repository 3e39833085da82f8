-- ===== src/ControlFlow/Pattern/Equal.antt =====
-- `operator==` of TracerCompressionPattern: equal patterns stand for the same symbols.
use cam_alias_checker.Prelude.{◌≡◌, refl, arith, true}
use cam_alias_checker.ControlFlow.Pattern.{
  Pattern, node, Patterns, nil, cons, size, eq_pattern, eq_patterns,
}
use cam_alias_checker.ControlFlow.Pattern.Expand.{expand, expand_all}

mutual
  unfolding eq_pattern expand

  expand_eq : (p q : Pattern) → eq_pattern p q ≡ true → expand p ≡ expand q
  expand_eq (node nil n s) (node nil m t) h = ground arith
  expand_eq (node nil n s) (node (cons q qs) m t) h = ground arith
  expand_eq (node (cons p ps) n s) (node nil m t) h = ground arith
  expand_eq (node (cons p ps) n s) (node (cons q qs) m t) h =
      ground (arith, expand_eq p q, expand_all_eq ps qs)

  expand_all_eq :
      (ps qs : Patterns)
      → size ps ≡ size qs
      → eq_patterns ps qs ≡ true
      → expand_all ps ≡ expand_all qs
  expand_all_eq nil nil e h = refl
  expand_all_eq nil (cons q qs) e h = ground arith
  expand_all_eq (cons p ps) nil e h = ground arith
  expand_all_eq (cons p ps) (cons q qs) e h = ground (arith, expand_eq p q, expand_all_eq ps qs)

-- Patterns that compare equal stand for the same symbols.
pub expand-eq_pattern : (p q : Pattern) → eq_pattern p q ≡ true → expand p ≡ expand q
expand-eq_pattern p q = expand_eq p q

mutual
  unfolding eq_pattern

  eq_refl : (p : Pattern) → eq_pattern p p ≡ true
  eq_refl (node nil n s) = ground arith
  eq_refl (node (cons p ps) n s) = ground (arith, eq_refl p, eq_all_refl ps)

  eq_all_refl : (ps : Patterns) → eq_patterns ps ps ≡ true
  eq_all_refl nil = refl
  eq_all_refl (cons p ps) = ground (arith, eq_refl p, eq_all_refl ps)

-- Every pattern equals itself.
pub eq_pattern_refl : (p : Pattern) → eq_pattern p p ≡ true
eq_pattern_refl p = eq_refl p
