-- ===== src/Libcam/Repetition/Built/Each.antt =====
-- What holds of every range of some patterns holds of those of the lookup that is built from them.
use cam_alias_checker.Prelude.{List, [], ◌∷◌, Bool-cases, inl, inr}
use cam_alias_checker.Libcam.Repetition.{RepetitionPattern, Range}
use cam_alias_checker.Libcam.Repetition.Built.{before, assign_range, assign_pattern, range_map}

module _ {D : Type 0} where
  abbrev pub EachRange : (Range D → Type 0) → List (Range D) → Type 0
  EachRange P [] = Unit
  EachRange P (x ∷ xs) = P x × EachRange P xs

  abbrev pub EachOf : (Range D → Type 0) → RepetitionPattern → D → Type 0
  EachOf P [] d = Unit
  EachOf P (r ∷ rs) d = P (r.0, r.1, d) × EachOf P rs d

  abbrev pub EachIn : (Range D → Type 0) → List (RepetitionPattern × D) → Type 0
  EachIn P [] = Unit
  EachIn P (p ∷ ps) = EachOf P p.0 p.1 × EachIn P ps

  assign_range-EachRange :
      (P : Range D → Type 0) (t : Range D) (m : List (Range D))
      → P t
      → EachRange P m
      → EachRange P (assign_range t m)
  unfolding assign_range
  assign_range-EachRange P t [] h a = (h, tt)
  assign_range-EachRange P t (x ∷ xs) h a = elim (Bool-cases (before t.0 t.1 x.0 x.1)) [
    | inl p ↦ rw p (h, a)
    | inr p ↦ elim (Bool-cases (before x.0 x.1 t.0 t.1)) [
      | inl q ↦ rw (p, q) (a.0, assign_range-EachRange P t xs h a.1)
      | inr q ↦ rw (p, q) (h, a.1)
    ]
  ]

  assign_pattern-EachRange :
      (P : Range D → Type 0) (rs : RepetitionPattern) (d : D) (m : List (Range D))
      → EachOf P rs d
      → EachRange P m
      → EachRange P (assign_pattern rs d m)
  unfolding assign_pattern
  assign_pattern-EachRange P [] d m h a = a
  assign_pattern-EachRange P (r ∷ rs) d m h a =
      assign_pattern-EachRange P rs d (assign_range (r.0, r.1, d) m) h.1
        (assign_range-EachRange P (r.0, r.1, d) m h.0 a)

  pub range_map-EachRange :
      (P : Range D → Type 0) (ps : List (RepetitionPattern × D)) (m : List (Range D))
      → EachIn P ps
      → EachRange P m
      → EachRange P (range_map ps m)
  unfolding range_map
  range_map-EachRange P [] m h a = a
  range_map-EachRange P (p ∷ ps) m h a =
      range_map-EachRange P ps (assign_pattern p.0 p.1 m) h.1
        (assign_pattern-EachRange P p.0 p.1 m h.0 a)
