-- ===== src/Xanlib/HashTable/Lookup.antt =====
-- Looking up gives the first element under a key, and replacing changes it.
use cam_alias_checker.Prelude.{
  ℕ, suc, ◌<◌, ◌≡◌, refl, ap, sym, ◌∙◌, true, false, some, List, [], ◌∷◌, length, get_or, set, ◌==◌,
  if◌then◌else◌, arith, Bool-cases, inl, inr,
}
use cam_alias_checker.Xanlib.HashTable.{Keys, LoadFactor, Bucket, XanHashTable}
use cam_alias_checker.Xanlib.HashTable.Ops.{
  has_key, find_item, element_or_null, replace_first, lookup, replace, bucket_of,
}
use cam_alias_checker.Xanlib.HashTable.Placed.{IsKeys, values, home, AllAt}
use cam_alias_checker.Xanlib.HashTable.Store.{
  set-IsBuckets, bucket-AllAt, values-bucket, values-written, length-items-set,
}
use cam_alias_checker.Xanlib.HashTable.Insert.{IsTable, stored}

-- the first pointer, or NULL
abbrev pub first_or_null : List ℕ → ℕ
first_or_null [] = 0
first_or_null (e ∷ es) = e

module _ ⦃ks : Keys⦄ where
  find_item-values :
      (k : ℕ) (b : Bucket) → element_or_null (find_item (has_key k) b) ≡ first_or_null (values k b)
  unfolding find_item values
  find_item-values k [] = refl
  find_item-values k (x ∷ b) = elim (Bool-cases (ks.equals x.element_id k)) [
    | inl p ↦ rw p refl
    | inr p ↦ rw p (find_item-values k b)
  ]

  replace_first-AllAt :
      (n i k e : ℕ) (b : Bucket) → AllAt n i b → AllAt n i (replace_first (has_key k) e b)
  unfolding replace_first
  replace_first-AllAt n i k e [] v = tt
  replace_first-AllAt n i k e (x ∷ b) v = elim (Bool-cases (ks.equals x.element_id k)) [
    | inl p ↦ rw p v
    | inr p ↦ rw p (v.0, v.1, replace_first-AllAt n i k e b v.2)
  ]

  length-replace_first : (k e : ℕ) (b : Bucket) → length (replace_first (has_key k) e b) ≡ length b
  unfolding replace_first
  length-replace_first k e [] = refl
  length-replace_first k e (x ∷ b) = elim (Bool-cases (ks.equals x.element_id k)) [
    | inl p ↦ rw p refl
    | inr p ↦ rw p (ap suc (length-replace_first k e b))
  ]

  module _ (law : IsKeys ks) where
    -- Whether an item is under a key does not depend on which of two equal keys is meant.
    pub equals-right : (a k q : ℕ) → ks.equals k q ≡ true → ks.equals a k ≡ ks.equals a q
    equals-right a k q e =
        ground (arith, law.equals_trans a k q, law.equals_trans a q k, law.equals_symm k q)

    pub equals-apart :
        (a k q : ℕ) → ks.equals k q ≡ false → ks.equals a k ≡ true → ks.equals a q ≡ false
    equals-apart a k q e f = ground (arith, law.equals_trans k a q, law.equals_symm k a)

    replace_first-values :
        (k e q : ℕ) (b : Bucket)
        → values q (replace_first (has_key k) e b)
          ≡ (if ks.equals k q then set (values q b) 0 e else values q b)
    unfolding replace_first values
    replace_first-values k e q [] = ground arith
    replace_first-values k e q (x ∷ b) = elim (Bool-cases (ks.equals k q)) [
      | inl r ↦
          let same = equals-right x.element_id k q r in
          elim (Bool-cases (ks.equals x.element_id k)) [
            | inl p ↦ rw (p, r, (let z : ks.equals x.element_id q ≡ true = sym same ∙ p in z)) refl
            | inr p ↦
                rw (p, r, (let z : ks.equals x.element_id q ≡ false = sym same ∙ p in z))
                  (replace_first-values k e q b ∙ rw r refl)
          ]
      | inr r ↦ elim (Bool-cases (ks.equals x.element_id k)) [
        | inl p ↦ rw (p, r, equals-apart x.element_id k q r p) refl
        | inr p ↦
            let rest : values q (replace_first (has_key k) e b) ≡ values q b =
              replace_first-values k e q b ∙ rw r refl in
            rw (p, r, rest) refl
      ]
    ]

module _ {F : Type 0} ⦃fl : LoadFactor F⦄ ⦃ks : Keys⦄ (law : IsKeys ks) where
  -- `xanHashTable_lookup` gives the element that came first of those under the key, or NULL if there is
  -- none.
  pub lookup-stored :
      (k : ℕ) (t : XanHashTable F)
      → IsTable law t
      → lookup k t ≡ some (first_or_null (stored law k t))
  unfolding lookup
  lookup-stored k t v =
      let used : (t.length == 0) ≡ false = (let p = v.buckets.positive in ground (arith, p)) in
      rw used (
        ap some (
          find_item-values k (bucket_of k t)
          ∙ ap first_or_null (sym (values-bucket law t.length t.table v.buckets k))))

  -- `xanHashTable_replace` changes the element that came first of those under the keys that equal the
  -- key, if there is one, and nothing else.
  pub replace-stored :
      (k e : ℕ) (t : XanHashTable F)
      → IsTable law t
      → (t' : XanHashTable F) × (replace k e t ≡ some t')
        × IsTable law t'
        × ((q : ℕ)
            → stored law q t'
              ≡ (if ks.equals k q then set (stored law q t) 0 e else stored law q t))
  unfolding replace
  replace-stored k e t v =
      let used : (t.length == 0) ≡ false = (let p = v.buckets.positive in ground (arith, p)) in
      let n = t.length in
      let i = home k n in
      let b = get_or t.table i [] in
      let c = replace_first (has_key k) e b in
      let w = replace_first-AllAt n i k e b (bucket-AllAt law n t.table v.buckets i) in
      let lt : i < length t.table = omega (arith, v.buckets.width, v.buckets.positive) in
      (
        record t { table = set t.table i c },
        rw used refl,
        record {
          buckets = set-IsBuckets law n t.table v.buckets i c w;
          counted =
              omega (arith, v.counted, length-items-set t.table i c lt, length-replace_first k e b);
        },
        values-written law n t.table v.buckets k c (λ z. set z 0 e) w
            (λ q. replace_first-values law k e q b),
      )
