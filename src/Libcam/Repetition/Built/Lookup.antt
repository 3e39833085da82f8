-- ===== src/Libcam/Repetition/Built/Lookup.antt =====
-- A `RepetitionPatternLookup` that is built from patterns that do not overlap is a map from instances to
-- data.
use cam_alias_checker.Prelude.{
  ℕ, ◌+◌, ◌≤◌, ◌<◌, ◌≡◌, refl, ap, ◌∙◌, Bool, true, false, Option, none, some, List, [], ◌∷◌, ltb,
  if◌then◌else◌, arith, Bool-cases, inl, inr, ◌⊎◌,
}
use cam_alias_checker.Libcam.Repetition.{
  RepetitionPattern, Range, insert_range, insert_to_lut, lookup_data,
}
use cam_alias_checker.Libcam.Repetition.Lookup.{
  covers, IsPattern, IsLut, IsApart, AllApart, data_at, insert_range-IsApart, insert_range-IsLut,
  insert_range-AllApart, data_at-insert_to_lut,
}
use cam_alias_checker.Libcam.Repetition.Built.{
  before, assign_range, assign_pattern, range_map, build_lut, all_reach, first_reaching,
  lookup_built,
}

-- Two ranges have no instance in common.
abbrev pub Parted : (r q : ℕ × ℕ) → Type 0
Parted r q = (r.1 < q.0) ⊎ (q.1 < r.0)

abbrev pub PartedFrom : ℕ × ℕ → RepetitionPattern → Type 0
PartedFrom r [] = Unit
PartedFrom r (q ∷ qs) = Parted r q × PartedFrom r qs

-- No range of one pattern has an instance of the other.
abbrev pub Disjoint : RepetitionPattern → RepetitionPattern → Type 0
Disjoint [] qs = Unit
Disjoint (r ∷ rs) qs = PartedFrom r qs × Disjoint rs qs

module _ {D : Type 0} where
  abbrev pub DisjointFrom : RepetitionPattern → List (RepetitionPattern × D) → Type 0
  DisjointFrom rs [] = Unit
  DisjointFrom rs (p ∷ ps) = Disjoint rs p.0 × DisjointFrom rs ps

  -- Patterns in order, no two of which overlap.
  abbrev pub ArePatterns : List (RepetitionPattern × D) → Type 0
  ArePatterns [] = Unit
  ArePatterns (p ∷ ps) = IsPattern 0 p.0 × DisjointFrom p.0 ps × ArePatterns ps

  abbrev pub or_else : Option D → Option D → Option D
  or_else none o = o
  or_else (some d) o = some d

  -- the data of the last pattern that an instance is in
  unfoldable pub data_in : ℕ → List (RepetitionPattern × D) → Option D
  data_in n [] = none
  data_in n (p ∷ ps) = or_else (data_in n ps) (if covers n p.0 then some p.1 else none)

  -- A range that overlaps none comes to the same place in the order of the pairs and in that of the ends.
  assign_range-insert_range :
      (lo s e : ℕ) (d : D) (m : List (Range D))
      → s ≤ e
      → IsLut lo m
      → IsApart s e m
      → assign_range (s, e, d) m ≡ insert_range (s, e, d) m
  unfolding assign_range insert_range
  assign_range-insert_range lo s e d [] le v a = refl
  assign_range-insert_range lo s e d (x ∷ xs) le v a = elim (Bool-cases (ltb e x.1)) [
    | inl p ↦ let b : before s e x.0 x.1 ≡ true = ground (arith, p, a.0, v.1) in rw (b, p) refl
    | inr p ↦
        let q : ltb x.1 e ≡ true = ground (arith, p, a.0, v.1) in
        let b : before s e x.0 x.1 ≡ false = ground (arith, p, a.0, v.1) in
        let c : before x.0 x.1 s e ≡ true = ground (arith, p, a.0, v.1) in
        rw (b, c, p, q) (ap (λ z. x ∷ z) (assign_range-insert_range (x.1 + 1) s e d xs le v.2 a.1))
  ]

  assign_pattern-insert_to_lut :
      (lo : ℕ) (d : D) (rs : RepetitionPattern) (m : List (Range D))
      → IsPattern lo rs
      → IsLut 0 m
      → AllApart rs m
      → assign_pattern rs d m ≡ insert_to_lut rs d m
  unfolding assign_pattern insert_to_lut
  assign_pattern-insert_to_lut lo d [] m p v a = refl
  assign_pattern-insert_to_lut lo d (r ∷ rs) m p v a =
      ap (assign_pattern rs d) (assign_range-insert_range 0 r.0 r.1 d m p.1 v a.0)
      ∙ assign_pattern-insert_to_lut (r.1 + 1) d rs (insert_range (r.0, r.1, d) m) p.2
          (insert_range-IsLut 0 r.0 r.1 d m (omega arith) p.1 v a.0)
          (insert_range-AllApart (r.1 + 1) r.0 r.1 d rs m (omega arith) p.2 a.1)

  -- What a pattern leaves apart from another one.
  insert_range-keeps :
      (r : ℕ × ℕ) (d : D) (qs : RepetitionPattern) (m : List (Range D))
      → PartedFrom r qs
      → AllApart qs m
      → AllApart qs (insert_range (r.0, r.1, d) m)
  insert_range-keeps r d [] m w a = tt
  insert_range-keeps r d (q ∷ qs) m w a =
      (insert_range-IsApart r.0 r.1 q.0 q.1 d m w.0 a.0, insert_range-keeps r d qs m w.1 a.1)

  insert_to_lut-keeps :
      (rs : RepetitionPattern) (d : D) (qs : RepetitionPattern) (m : List (Range D))
      → Disjoint rs qs
      → AllApart qs m
      → AllApart qs (insert_to_lut rs d m)
  unfolding insert_to_lut
  insert_to_lut-keeps [] d qs m w a = a
  insert_to_lut-keeps (r ∷ rs) d qs m w a =
      insert_to_lut-keeps rs d qs (insert_range (r.0, r.1, d) m) w.1
        (insert_range-keeps r d qs m w.0 a)

  abbrev AllPatternsApart : List (RepetitionPattern × D) → List (Range D) → Type 0
  AllPatternsApart [] m = Unit
  AllPatternsApart (p ∷ ps) m = AllApart p.0 m × AllPatternsApart ps m

  patterns-keep :
      (rs : RepetitionPattern) (d : D) (ps : List (RepetitionPattern × D)) (m : List (Range D))
      → DisjointFrom rs ps
      → AllPatternsApart ps m
      → AllPatternsApart ps (insert_to_lut rs d m)
  patterns-keep rs d [] m w a = tt
  patterns-keep rs d (p ∷ ps) m w a =
      (insert_to_lut-keeps rs d p.0 m w.0 a.0, patterns-keep rs d ps m w.1 a.1)

  or_else-if :
      (a : Option D) (b : Bool) (d : D) (o : Option D)
      → or_else a (if b then some d else o) ≡ or_else (or_else a (if b then some d else none)) o
  or_else-if none true d o = refl
  or_else-if none false d o = refl
  or_else-if (some c) b d o = refl

  range_map-data_in :
      (n : ℕ) (ps : List (RepetitionPattern × D)) (m : List (Range D))
      → ArePatterns ps
      → IsLut 0 m
      → AllPatternsApart ps m
      → IsLut 0 (range_map ps m)
        × (data_at n (range_map ps m) ≡ or_else (data_in n ps) (data_at n m))
  unfolding range_map data_in
  range_map-data_in n [] m w v a = (v, refl)
  range_map-data_in n (p ∷ ps) m w v a =
      let same = assign_pattern-insert_to_lut 0 p.1 p.0 m w.0 v a.0 in
      let (v', e) = data_at-insert_to_lut n 0 p.1 p.0 m w.0 v a.0 in
      let (v'', e') =
        range_map-data_in n ps (insert_to_lut p.0 p.1 m) w.2 v'
          (patterns-keep p.0 p.1 ps m w.1 a.1) in
      rw same (
        v'',
        e'
            ∙ ap (or_else (data_in n ps)) e
            ∙ or_else-if (data_in n ps) (covers n p.0) p.1 (data_at n m),
      )

  all_reach-IsLut :
      (n lo : ℕ) (lut : List (Range D)) → n ≤ lo → IsLut lo lut → all_reach n lut ≡ true
  unfolding all_reach
  all_reach-IsLut n lo [] le v = refl
  all_reach-IsLut n lo (x ∷ xs) le v =
      let here : ltb x.1 n ≡ false = ground (arith, le, v.0, v.1) in
      rw (here, all_reach-IsLut n (x.1 + 1) xs (omega (arith, le, v.0, v.1)) v.2) refl

  lookup_built-data_at :
      (n lo : ℕ) (lut : List (Range D)) (d : D)
      → IsLut lo lut
      → data_at n lut ≡ some d
      → lookup_built n lut ≡ some d
  unfolding first_reaching lookup_data
  lookup_built-data_at n lo [] d v e = absurd (ground (arith, e))
  lookup_built-data_at n lo (x ∷ xs) d v e = elim (Bool-cases (ltb x.1 n)) [
    | inl p ↦ rw p (lookup_built-data_at n (x.1 + 1) xs d v.2 (rw p at e))
    | inr p ↦
        let reach = all_reach-IsLut n (x.1 + 1) xs (ground (arith, p)) v.2 in
        elim (Bool-cases (ltb n x.0)) [
          | inl q ↦ absurd (let f = rw (p, q) at e in ground (arith, f))
          | inr q ↦ rw (p, reach) (rw (p, q) at e)
        ]
  ]

  none-apart : (ps : List (RepetitionPattern × D)) → AllPatternsApart ps []
  none-apart [] = tt
  none-apart (p ∷ ps) = (go p.0, none-apart ps)
    where
      go : (rs : RepetitionPattern) → AllApart {D = D} rs []
      go [] = tt
      go (r ∷ rs) = (tt, go rs)

  pub or_else-none : (o : Option D) → or_else o none ≡ o
  or_else-none none = refl
  or_else-none (some d) = refl

  -- The ranges come in order, and an instance has the data of the last pattern that it is in.
  pub range_map-IsLut :
      (n : ℕ) (ps : List (RepetitionPattern × D))
      → ArePatterns ps
      → IsLut 0 (range_map ps []) × (data_at n (range_map ps []) ≡ data_in n ps)
  unfolding lookup_data
  range_map-IsLut n ps w =
      let (v, at) = range_map-data_in n ps [] w tt (none-apart ps) in
      (v, at ∙ or_else-none (data_in n ps))

  -- In a lookup that is built from patterns in order, no two of which overlap, an instance of a pattern is
  -- looked up to the data of that pattern.
  pub lookup_built-build_lut :
      (n : ℕ) (ps : List (RepetitionPattern × D)) (d : D)
      → ArePatterns ps
      → data_in n ps ≡ some d
      → lookup_built n (build_lut ps []) ≡ some d
  unfolding lookup_data
  lookup_built-build_lut n ps d w e =
      let (v, at) = range_map-IsLut n ps w in
      lookup_built-data_at n 0 (range_map ps []) d v (at ∙ e)
