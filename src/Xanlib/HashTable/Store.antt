-- ===== src/Xanlib/HashTable/Store.antt =====
-- Storing an item in the bucket of its key adds its element to what is under the key.
use cam_alias_checker.Prelude.{
  ℕ, zero, suc, ◌+◌, ◌<◌, ◌≡◌, refl, ap, sym, subst, ◌∙◌, List, [], ◌∷◌, ◌++◌, append-nil, length,
  length-append, length-set, get_or, set, get_or-set, ◌==◌, ==_iff, if◌then◌else◌, arith,
  Bool-cases, inl, inr,
}
use cam_alias_checker.Xanlib.HashTable.{Keys, Bucket}
use cam_alias_checker.Xanlib.HashTable.Ops.{store_item}
use cam_alias_checker.Xanlib.HashTable.Placed.{
  IsKeys, items, values, home, AllAt, IsPlaced, values-append, IsPlaced-get_or, IsPlaced-set,
  AllAt-append, home-equals, values-items,
}

pub length-items-set :
    (bs : List Bucket) (i : ℕ) (c : Bucket)
    → i < length bs
    → length (items (set bs i c)) + length (get_or bs i []) ≡ length (items bs) + length c
unfolding items
length-items-set [] i c h = absurd (omega arith)
length-items-set (x ∷ bs) zero c h =
    omega (arith, length-append c (items bs), length-append x (items bs))
length-items-set (x ∷ bs) (suc i) c h = omega (
  arith,
  length-append x (items (set bs i c)),
  length-append x (items bs),
  length-items-set bs i c (omega arith),
)

module _ ⦃ks : Keys⦄ (law : IsKeys ks) where
  -- `n` buckets, each item in its home
  pub record IsBuckets (n : ℕ) (bs : List Bucket) : Type 0 where
    pub width : length bs ≡ n
    pub positive : 0 < n
    pub placed : IsPlaced n 0 bs

  module _ (n : ℕ) (bs : List Bucket) (v : IsBuckets n bs) where
    -- A bucket written back: only the keys at home there can have something else under them.
    pub values-set :
        (q i : ℕ) (c : Bucket)
        → i < n
        → AllAt n i c
        → values q (items (set bs i c))
          ≡ (if i == home q n then values q c else values q (items bs))
    values-set q i c lt w =
        let lt' : i < length bs = omega (arith, v.width, lt) in
        let at : home q n ≡ 0 + home q n = omega arith in
        values-items law q n 0 (home q n) (set bs i c)
          (IsPlaced-set n 0 i c bs v.placed
            (subst (λ k. AllAt n k c) (let e : i ≡ 0 + i = omega arith in e) w))
          at
        ∙ ap (values q) (get_or-set bs i (home q n) c [] lt')
        ∙ elim (Bool-cases (i == home q n)) [
          | inl p ↦ rw p refl
          | inr p ↦ rw p (sym (values-items law q n 0 (home q n) bs v.placed at))
        ]

    pub set-IsBuckets : (i : ℕ) (c : Bucket) → AllAt n i c → IsBuckets n (set bs i c)
    set-IsBuckets i c w = record {
      width = length-set bs i c ∙ v.width;
      positive = v.positive;
      placed =
          IsPlaced-set n 0 i c bs v.placed
            (subst (λ k. AllAt n k c) (let e : i ≡ 0 + i = omega arith in e) w);
    }

    pub bucket-AllAt : (i : ℕ) → AllAt n i (get_or bs i [])
    bucket-AllAt i =
        subst (λ k. AllAt n k (get_or bs i [])) (let e : 0 + i ≡ i = omega arith in e)
          (IsPlaced-get_or n 0 i bs v.placed)

    -- What a table has under a key is in the bucket of the key.
    pub values-bucket : (q : ℕ) → values q (items bs) ≡ values q (get_or bs (home q n) [])
    values-bucket q =
        values-items law q n 0 (home q n) bs v.placed
          (let at : home q n ≡ 0 + home q n = omega arith in at)

    -- Storing an item adds its element under its key.
    pub store_item-IsBuckets : (k e : ℕ) → IsBuckets n (store_item bs (home k n) k e)
    store_item-IsBuckets k e =
        set-IsBuckets (home k n)
          (get_or bs (home k n) [] ++ record { index = home k n; element_id = k; element = e } ∷ [])
          (AllAt-append n (home k n) (get_or bs (home k n) [])
            (record { index = home k n; element_id = k; element = e } ∷ [])
            (bucket-AllAt (home k n)) (refl, refl, tt))

    pub store_item-values :
        (q k e : ℕ)
        → values q (items (store_item bs (home k n) k e))
          ≡ values q (items bs) ++ (if ks.equals k q then e ∷ [] else [])
    unfolding values
    store_item-values q k e =
        let i = home k n in
        let old = get_or bs i [] in
        let new : Bucket = record { index = i; element_id = k; element = e } ∷ [] in
        let lt : i < n = omega (arith, v.positive) in
        values-set q i (old ++ new) lt (AllAt-append n i old new (bucket-AllAt i) (refl, refl, tt))
        ∙ elim (Bool-cases (i == home q n)) [
          | inl p ↦
              let same : i ≡ home q n = (==_iff i (home q n)).0 p in
              rw p (
                values-append q old new
                ∙ ap (λ z. z ++ values q new)
                    (ap (λ j. values q (get_or bs j [])) same ∙ sym (values-bucket q)))
          | inr p ↦ elim (Bool-cases (ks.equals k q)) [
            | inl r ↦ absurd (ground (arith, home-equals law k q n r))
            | inr r ↦ rw (p, r) (sym (append-nil (values q (items bs))))
          ]
        ]

    pub store_item-length :
        (k e : ℕ) → length (items (store_item bs (home k n) k e)) ≡ length (items bs) + 1
    store_item-length k e =
        let i = home k n in
        let new : Bucket = record { index = i; element_id = k; element = e } ∷ [] in
        let lt : i < length bs = omega (arith, v.width, v.positive) in
        omega (
          arith,
          length-items-set bs i (get_or bs i [] ++ new) lt,
          length-append (get_or bs i []) new,
        )

    -- A bucket of a key written back, where what is under each key has changed as `f` says for the keys
    -- that equal it, changes the table so.
    pub values-written :
        (k : ℕ) (c : Bucket) (f : List ℕ → List ℕ)
        → AllAt n (home k n) c
        → ((q : ℕ)
            → values q c ≡ (
                if ks.equals k q
                then f (values q (get_or bs (home k n) []))
                else values q (get_or bs (home k n) [])))
        → (q : ℕ)
        → values q (items (set bs (home k n) c))
          ≡ (if ks.equals k q then f (values q (items bs)) else values q (items bs))
    values-written k c f w h q =
        let lt : home k n < n = omega (arith, v.positive) in
        values-set q (home k n) c lt w ∙ elim (Bool-cases (home k n == home q n)) [
          | inl p ↦
              let same : home k n ≡ home q n = (==_iff (home k n) (home q n)).0 p in
              let there : values q (get_or bs (home k n) []) ≡ values q (items bs) =
                ap (λ j. values q (get_or bs j [])) same ∙ sym (values-bucket q) in
              rw p (h q ∙ ap (λ z. if ks.equals k q then f z else z) there)
          | inr p ↦ elim (Bool-cases (ks.equals k q)) [
            | inl r ↦ absurd (ground (arith, home-equals law k q n r))
            | inr r ↦ rw (p, r) refl
          ]
        ]
