-- ===== src/Libcam/Repetition/Lookup.antt =====
-- The lookup of data by instance is a map from instances to data.
use cam_alias_checker.Prelude.{
  ℕ, ◌+◌, ◌≤◌, ◌<◌, ◌≡◌, refl, ap, ◌∙◌, Bool, true, false, ◌&&◌, ◌||◌, Option, none, some, [], ◌∷◌,
  ltb, leb, if◌then◌else◌, arith, Bool-cases, inl, inr, ◌⊎◌,
}
use cam_alias_checker.Libcam.Repetition.{
  RepetitionPattern, Range, SortedLookup, insert_range, insert_to_lut, lookup_data,
  get_data_from_iterator,
}

-- whether an instance is in a range
abbrev pub within : (n start end : ℕ) → Bool
within n s e = leb s n && leb n e

-- whether an instance is in one of the ranges
unfoldable pub covers : ℕ → RepetitionPattern → Bool
covers n [] = false
covers n (r ∷ rs) = within n r.0 r.1 || covers n rs

-- The ranges of a pattern, in order from `lo` on, without overlap.
abbrev pub IsPattern : ℕ → RepetitionPattern → Type 0
IsPattern lo [] = Unit
IsPattern lo (r ∷ rs) = (lo ≤ r.0) × (r.0 ≤ r.1) × IsPattern (r.1 + 1) rs

module _ {D : Type 0} where
  -- The ranges come in order from `lo` on and none overlaps another.
  abbrev pub IsLut : ℕ → SortedLookup D → Type 0
  IsLut lo [] = Unit
  IsLut lo (x ∷ xs) = (lo ≤ x.0) × (x.0 ≤ x.1) × IsLut (x.1 + 1) xs

  -- A range overlaps none of the others.
  abbrev pub IsApart : ℕ → ℕ → SortedLookup D → Type 0
  IsApart s e [] = Unit
  IsApart s e (x ∷ xs) = ((x.1 < s) ⊎ (e < x.0)) × IsApart s e xs

  pub insert_range-IsLut :
      (lo s e : ℕ) (d : D) (lut : SortedLookup D)
      → lo ≤ s
      → s ≤ e
      → IsLut lo lut
      → IsApart s e lut
      → IsLut lo (insert_range (s, e, d) lut)
  unfolding insert_range
  insert_range-IsLut lo s e d [] ls le v a = (ls, le, tt)
  insert_range-IsLut lo s e d (x ∷ xs) ls le v a = elim (Bool-cases (ltb e x.1)) [
    | inl p ↦ rw p (ls, le, (ground (arith, a.0), v.1, v.2))
    | inr p ↦ elim (Bool-cases (ltb x.1 e)) [
      | inl q ↦
          rw (p, q)
            (v.0, v.1, insert_range-IsLut (x.1 + 1) s e d xs (ground (arith, a.0)) le v.2 a.1)
      | inr q ↦ absurd (ground (arith, a.0, v.1))
    ]
  ]

  pub insert_range-IsApart :
      (s e s' e' : ℕ) (d : D) (lut : SortedLookup D)
      → (e < s') ⊎ (e' < s)
      → IsApart s' e' lut
      → IsApart s' e' (insert_range (s, e, d) lut)
  unfolding insert_range
  insert_range-IsApart s e s' e' d [] w a = (w, tt)
  insert_range-IsApart s e s' e' d (x ∷ xs) w a = elim (Bool-cases (ltb e x.1)) [
    | inl p ↦ rw p (w, (a.0, a.1))
    | inr p ↦ elim (Bool-cases (ltb x.1 e)) [
      | inl q ↦ rw (p, q) (a.0, insert_range-IsApart s e s' e' d xs w a.1)
      | inr q ↦ rw (p, q) a
    ]
  ]

  -- Inserting a range that overlaps none adds its instances to the map.
  pub lookup_data-insert_range :
      (n lo s e : ℕ) (d : D) (lut : SortedLookup D)
      → s ≤ e
      → IsLut lo lut
      → IsApart s e lut
      → lookup_data n (insert_range (s, e, d) lut)
        ≡ (if within n s e then some (s, e, d) else lookup_data n lut)
  unfolding insert_range lookup_data
  lookup_data-insert_range n lo s e d [] le v a = ground arith
  lookup_data-insert_range n lo s e d (x ∷ xs) le v a = elim (Bool-cases (ltb e x.1)) [
    | inl p ↦ rw p (ground (arith, a.0, v.1))
    | inr p ↦ elim (Bool-cases (ltb x.1 e)) [
      | inl q ↦
          let r = lookup_data-insert_range n (x.1 + 1) s e d xs le v.2 a.1 in
          rw (p, q, r) (ground (arith, a.0, v.1))
      | inr q ↦ absurd (ground (arith, a.0, v.1))
    ]
  ]

  abbrev pub AllApart : RepetitionPattern → SortedLookup D → Type 0
  AllApart [] lut = Unit
  AllApart (r ∷ rs) lut = IsApart r.0 r.1 lut × AllApart rs lut

  pub insert_range-AllApart :
      (lo s e : ℕ) (d : D) (rs : RepetitionPattern) (lut : SortedLookup D)
      → e < lo
      → IsPattern lo rs
      → AllApart rs lut
      → AllApart rs (insert_range (s, e, d) lut)
  insert_range-AllApart lo s e d [] lut lt v a = tt
  insert_range-AllApart lo s e d (r ∷ rs) lut lt v a = (
    insert_range-IsApart s e r.0 r.1 d lut (inl (omega (arith, lt, v.0))) a.0,
    insert_range-AllApart (r.1 + 1) s e d rs lut (omega (arith, lt, v.0, v.1)) v.2 a.1,
  )

  abbrev data_of : Option (Range D) → Option D
  data_of none = none
  data_of (some t) = some (get_data_from_iterator t)

  -- the data at an instance
  abbrev pub data_at : ℕ → SortedLookup D → Option D
  data_at n lut = data_of (lookup_data n lut)

  either :
      (b c : Bool) (s e : ℕ) (d : D) (o : Option (Range D))
      → (if b then some d else data_of (if c then some (s, e, d) else o))
        ≡ (if c || b then some d else data_of o)
  either true true s e d o = refl
  either true false s e d o = refl
  either false true s e d o = refl
  either false false s e d o = refl

  -- Inserting a pattern whose ranges overlap none in the lookup gives its instances the data, leaves
  -- every other instance as it was, and keeps the ranges apart.
  pub data_at-insert_to_lut :
      (n lo : ℕ) (d : D) (rs : RepetitionPattern) (lut : SortedLookup D)
      → IsPattern lo rs
      → IsLut 0 lut
      → AllApart rs lut
      → IsLut 0 (insert_to_lut rs d lut)
        × (data_at n (insert_to_lut rs d lut) ≡ (if covers n rs then some d else data_at n lut))
  unfolding insert_to_lut covers
  data_at-insert_to_lut n lo d [] lut p v a = (v, refl)
  data_at-insert_to_lut n lo d (r ∷ rs) lut p v a =
      let one = lookup_data-insert_range n 0 r.0 r.1 d lut p.1 v a.0 in
      let next = insert_range (r.0, r.1, d) lut in
      let (w, e) =
        data_at-insert_to_lut n (r.1 + 1) d rs next p.2
          (insert_range-IsLut 0 r.0 r.1 d lut (omega arith) p.1 v a.0)
          (insert_range-AllApart (r.1 + 1) r.0 r.1 d rs lut (omega arith) p.2 a.1) in
      (
        w,
        e
            ∙ ap (λ o. if covers n rs then some d else data_of o) one
            ∙ either (covers n rs) (within n r.0 r.1) r.0 r.1 d (lookup_data n lut),
      )
