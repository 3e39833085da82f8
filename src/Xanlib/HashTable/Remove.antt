-- ===== src/Xanlib/HashTable/Remove.antt =====
-- Removing takes out the first element under a key, or fails where there is none.
use cam_alias_checker.Prelude.{
  ℕ, ◌+◌, ◌<◌, ◌≡◌, refl, sym, ◌∙◌, true, false, none, some, List, [], ◌∷◌, length, drop, get_or,
  set, ◌==◌, if◌then◌else◌, arith, Bool-cases, List-cases, inl, inr, ◌⊎◌,
}
use cam_alias_checker.Xanlib.HashTable.{Keys, LoadFactor, XanHashTableItem, Bucket, XanHashTable}
use cam_alias_checker.Xanlib.HashTable.Ops.{has_key, take_first, remove_element, shrunk}
use cam_alias_checker.Xanlib.HashTable.Placed.{IsKeys, items, values, home, AllAt}
use cam_alias_checker.Xanlib.HashTable.Store.{
  set-IsBuckets, bucket-AllAt, values-bucket, values-written, length-items-set,
}
use cam_alias_checker.Xanlib.HashTable.Insert.{IsTable, stored}
use cam_alias_checker.Xanlib.HashTable.Lookup.{equals-right, equals-apart}

module _ ⦃ks : Keys⦄ (law : IsKeys ks) where
  take_first-none : (k : ℕ) (b : Bucket) → values k b ≡ [] → take_first (has_key k) b ≡ none
  unfolding take_first values
  take_first-none k [] e = refl
  take_first-none k (x ∷ b) e = elim (Bool-cases (ks.equals x.element_id k)) [
    | inl p ↦ absurd (let z = rw p at e in cc)
    | inr p ↦ rw (p, take_first-none k b (rw p at e)) refl
  ]

  -- The first item under `k` taken out of `b` leaves `c`.
  record HasTaken (n i k : ℕ) (b : Bucket) (x : XanHashTableItem) (c : Bucket) : Type 0 where
    pub taken : take_first (has_key k) b ≡ some (x, c)
    pub same_key : ks.equals x.element_id k ≡ true
    pub at : AllAt n i c
    pub fewer : length b ≡ length c + 1
    pub others : (q : ℕ) → values q c ≡ (if ks.equals k q then drop 1 (values q b) else values q b)

  take_first-HasTaken :
      (n i k e : ℕ) (es : List ℕ) (b : Bucket)
      → AllAt n i b
      → values k b ≡ e ∷ es
      → (x : XanHashTableItem) × (c : Bucket) × HasTaken n i k b x c
  unfolding take_first values
  take_first-HasTaken n i k e es [] v h = cc
  take_first-HasTaken n i k e es (x ∷ b) v h = elim (Bool-cases (ks.equals x.element_id k)) [
    | inl p ↦ (
      x,
      b,
      record {
        taken = rw p refl;
        same_key = p;
        at = v.2;
        fewer = omega arith;
        others = λ q. elim (Bool-cases (ks.equals k q)) [
          | inl r ↦ rw (r, sym (equals-right law x.element_id k q r) ∙ p) refl
          | inr r ↦ rw (r, equals-apart law x.element_id k q r p) refl
        ];
      },
    )
    | inr p ↦
        let (y, c, t) = take_first-HasTaken n i k e es b v.2 (rw p at h) in
        (
          y,
          x ∷ c,
          record {
            taken = rw (p, t.taken) refl;
            same_key = t.same_key;
            at = (v.0, v.1, t.at);
            fewer = omega (arith, t.fewer);
            others = λ q. elim (Bool-cases (ks.equals k q)) [
              | inl r ↦
                  let rest : values q c ≡ drop 1 (values q b) = t.others q ∙ rw r refl in
                  rw (r, sym (equals-right law x.element_id k q r) ∙ p) rest
              | inr r ↦
                  let rest : values q c ≡ values q b = t.others q ∙ rw r refl in rw (r, rest) refl
            ];
          },
        )
  ]

module _ {F : Type 0} ⦃fl : LoadFactor F⦄ ⦃ks : Keys⦄ (law : IsKeys ks) where
  -- `xanHashTable_removeElement` ends the program where nothing is under the key. Otherwise it returns
  -- a key that equals it, and takes the element that came first away from those under the keys that
  -- equal it; what is under the others stays, and the table is a table again, with one item less.
  pub remove_element-stored :
      (k : ℕ) (t : XanHashTable F)
      → IsTable law t
      → ((stored law k t ≡ []) × (remove_element k t ≡ none))
        ⊎ ((e : ℕ) × (es : List ℕ) × (stored law k t ≡ e ∷ es)
            × (old : ℕ) × (t' : XanHashTable F) × (remove_element k t ≡ some (old, t'))
            × (ks.equals old k ≡ true)
            × IsTable law t'
            × ((q : ℕ)
                → stored law q t'
                  ≡ (if ks.equals k q then drop 1 (stored law q t) else stored law q t))
            × (length (items t.table) ≡ length (items t'.table) + 1))
  unfolding remove_element
  remove_element-stored k t v =
      let used : (t.length == 0) ≡ false = (let p = v.buckets.positive in ground (arith, p)) in
      let n = t.length in
      let i = home k n in
      let b = get_or t.table i [] in
      let here = values-bucket law n t.table v.buckets k in
      let lt : i < length t.table = omega (arith, v.buckets.width, v.buckets.positive) in
      elim (List-cases (stored law k t)) [
        | inl e ↦ inl (e, rw (used, take_first-none law k b (sym here ∙ e)) refl)
        | inr (e, es, h) ↦
            let at = bucket-AllAt law n t.table v.buckets i in
            let (x, c, r) = take_first-HasTaken law n i k e es b at (sym here ∙ h) in
            let fewer : length (items t.table) ≡ length (items (set t.table i c)) + 1 =
              omega (arith, length-items-set t.table i c lt, r.fewer) in
            inr (
              e,
              es,
              h,
              x.element_id,
              shrunk i c t,
              rw (used, r.taken) refl,
              r.same_key,
              record {
                buckets = set-IsBuckets law n t.table v.buckets i c r.at;
                counted = omega (arith, v.counted, fewer);
              },
              values-written law n t.table v.buckets k c (drop 1) r.at r.others,
              fewer,
            )
      ]
