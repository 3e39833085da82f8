-- ===== src/Xanlib/HashTable/Placed.antt =====
-- The invariant of a hash table, and what it stores under a key: the elements in the order in which
-- they came.
use cam_alias_checker.Prelude.{
  ℕ, zero, suc, ◌+◌, ◌%◌, ◌<◌, ◌≡◌, ◌≢◌, refl, ap, sym, subst, ◌∙◌, true, List, [], ◌∷◌, ◌++◌,
  append-nil, get_or, set, if◌then◌else◌, arith, Bool-cases, inl, inr,
}
use cam_alias_checker.Xanlib.HashTable.{Keys, XanHashTableItem, Bucket, improve_hash}
use cam_alias_checker.Xanlib.HashTable.Ops.{unused}

-- What the functions of a table must satisfy: equality is an equivalence, and equal keys have one hash.
pub record IsKeys (ks : Keys) : Type 0 where
  pub equals_refl : (a : ℕ) → ks.equals a a ≡ true
  pub equals_symm : (a b : ℕ) → ks.equals a b ≡ ks.equals b a
  pub equals_trans :
      (a b c : ℕ) → ks.equals a b ≡ true → ks.equals b c ≡ true → ks.equals a c ≡ true
  pub hash-equals : (a b : ℕ) → ks.equals a b ≡ true → ks.hash a ≡ ks.hash b

unfoldable pub items : List Bucket → List XanHashTableItem
items [] = []
items (b ∷ bs) = b ++ items bs

module _ ⦃ks : Keys⦄ where
  -- the elements that some items have under a key
  unfoldable pub values : (key : ℕ) → List XanHashTableItem → List ℕ
  values k [] = []
  values k (x ∷ xs) = if ks.equals x.element_id k then x.element ∷ values k xs else values k xs

  abbrev pub home : (key length : ℕ) → ℕ
  home k n = improve_hash k % n

  abbrev pub AllAt : (n i : ℕ) → Bucket → Type 0
  AllAt n i [] = Unit
  AllAt n i (x ∷ xs) = (x.index ≡ i) × (home x.element_id n ≡ i) × AllAt n i xs

  -- Each bucket, `i` and later, has items whose place it is.
  abbrev pub IsPlaced : (n i : ℕ) → List Bucket → Type 0
  IsPlaced n i [] = Unit
  IsPlaced n i (b ∷ bs) = AllAt n i b × IsPlaced n (i + 1) bs

  pub values-append :
      (k : ℕ) (xs ys : List XanHashTableItem) → values k (xs ++ ys) ≡ values k xs ++ values k ys
  unfolding values
  values-append k [] ys = refl
  values-append k (x ∷ xs) ys = elim (Bool-cases (ks.equals x.element_id k)) [
    | inl p ↦ rw (p, values-append k xs ys) refl
    | inr p ↦ rw (p, values-append k xs ys) refl
  ]

  pub IsPlaced-get_or :
      (n i j : ℕ) (bs : List Bucket) → IsPlaced n i bs → AllAt n (i + j) (get_or bs j [])
  IsPlaced-get_or n i j [] v = tt
  IsPlaced-get_or n i zero (b ∷ bs) v =
      subst (λ k. AllAt n k b) (let e : i ≡ i + 0 = omega arith in e) v.0
  IsPlaced-get_or n i (suc j) (b ∷ bs) v =
      subst (λ k. AllAt n k (get_or bs j [])) (let e : i + 1 + j ≡ i + suc j = omega arith in e)
        (IsPlaced-get_or n (i + 1) j bs v.1)

  pub IsPlaced-set :
      (n i j : ℕ) (b : Bucket) (bs : List Bucket)
      → IsPlaced n i bs
      → AllAt n (i + j) b
      → IsPlaced n i (set bs j b)
  IsPlaced-set n i j b [] v w = tt
  IsPlaced-set n i zero b (c ∷ bs) v w =
      (subst (λ k. AllAt n k b) (let e : i + 0 ≡ i = omega arith in e) w, v.1)
  IsPlaced-set n i (suc j) b (c ∷ bs) v w = (
    v.0,
    IsPlaced-set n (i + 1) j b bs v.1
        (subst (λ k. AllAt n k b) (let e : i + suc j ≡ i + 1 + j = omega arith in e) w),
  )

  pub IsPlaced-unused : (n i m : ℕ) → IsPlaced n i (unused m)
  IsPlaced-unused n i zero = tt
  IsPlaced-unused n i (suc m) = (tt, IsPlaced-unused n (i + 1) m)

  pub AllAt-append : (n i : ℕ) (b c : Bucket) → AllAt n i b → AllAt n i c → AllAt n i (b ++ c)
  AllAt-append n i [] c v w = w
  AllAt-append n i (x ∷ b) c v w = (v.0, v.1, AllAt-append n i b c v.2 w)

  module _ (law : IsKeys ks) where
    pub home-equals : (a b n : ℕ) → ks.equals a b ≡ true → home a n ≡ home b n
    unfolding improve_hash
    home-equals a b n e = rw (law.hash-equals a b e) refl

    -- A bucket that is not the home of a key has nothing under it.
    pub values-away : (k n i : ℕ) (b : Bucket) → AllAt n i b → home k n ≢ i → values k b ≡ []
    unfolding values
    values-away k n i [] v ne = refl
    values-away k n i (x ∷ b) v ne = elim (Bool-cases (ks.equals x.element_id k)) [
      | inr p ↦ rw p (values-away k n i b v.2 ne)
      | inl p ↦ absurd (ne (sym (home-equals x.element_id k n p) ∙ v.1))
    ]

    values-nowhere :
        (k n i : ℕ) (bs : List Bucket) → IsPlaced n i bs → home k n < i → values k (items bs) ≡ []
    unfolding values items
    values-nowhere k n i [] v lt = refl
    values-nowhere k n i (b ∷ bs) v lt =
        values-append k b (items bs)
        ∙ ap (λ z. z ++ values k (items bs)) (values-away k n i b v.0 (omega arith))
        ∙ values-nowhere k n (i + 1) bs v.1 (omega arith)

    -- What the table has under a key is in the key's bucket.
    pub values-items :
        (k n i j : ℕ) (bs : List Bucket)
        → IsPlaced n i bs
        → home k n ≡ i + j
        → values k (items bs) ≡ values k (get_or bs j [])
    unfolding values items
    values-items k n i j [] v e = refl
    values-items k n i zero (b ∷ bs) v e =
        values-append k b (items bs)
        ∙ ap (λ z. values k b ++ z) (values-nowhere k n (i + 1) bs v.1 (omega (arith, e)))
        ∙ append-nil (values k b)
    values-items k n i (suc j) (b ∷ bs) v e =
        values-append k b (items bs)
        ∙ ap (λ z. z ++ values k (items bs)) (values-away k n i b v.0 (omega (arith, e)))
        ∙ values-items k n (i + 1) j bs v.1 (omega (arith, e))
