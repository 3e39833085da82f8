-- ===== src/Xanlib/HashTable/Insert.antt =====
-- Inserting adds the element at the end of what the table has under the key, also where the table grows.
use cam_alias_checker.Prelude.{
  ℕ, ◌+◌, ◌%◌, ◌<◌, ◌≡◌, refl, ap, sym, ◌∙◌, false, none, some, List, [], ◌∷◌, ◌++◌, length,
  length-replicate, get_elem?-lt, if◌then◌else◌, ◌==◌, arith, Bool-cases, inl, inr, ◌⊎◌,
}
use cam_alias_checker.Xanlib.HashTable.{Keys, LoadFactor, XanHashTable, uint, primes}
use cam_alias_checker.Xanlib.HashTable.Ops.{
  unused, used_buckets, rehash, expand, make_room, insert_item, insert,
}
use cam_alias_checker.Xanlib.HashTable.Placed.{IsKeys, items, values, IsPlaced-unused}
use cam_alias_checker.Xanlib.HashTable.Store.{
  IsBuckets, store_item-IsBuckets, store_item-values, store_item-length,
}
use cam_alias_checker.Xanlib.HashTable.Expand.{rehash-HasMoved, items-unused, prime_positive}

module _ {F : Type 0} ⦃fl : LoadFactor F⦄ ⦃ks : Keys⦄ (law : IsKeys ks) where
  -- The representation of a table: the length is that of the block, each item is in the bucket of its
  -- key, and the items are counted.
  pub record IsTable (t : XanHashTable F) : Type 0 where
    pub buckets : IsBuckets law t.length t.table
    pub counted : t.size ≡ length (items t.table) % uint

  -- what a table has under a key, in the order in which it came
  abbrev pub stored : ℕ → XanHashTable F → List ℕ
  stored q t = values q (items t.table)

  -- the table is not at the last prime
  abbrev pub CanExpand : XanHashTable F → Type 0
  CanExpand t = (t.has_fixed_length ≡ false) × (t.prime_index + 1 < length primes)

  expand-IsTable :
      (t : XanHashTable F)
      → IsTable t
      → t.prime_index + 1 < length primes
      → (t' : XanHashTable F) × (expand t ≡ some t')
        × IsTable t'
        × ((q : ℕ) → stored q t' ≡ stored q t)
        × (length (items t'.table) ≡ length (items t.table))
  unfolding expand items values
  expand-IsTable t v lt =
      let (n, e) = get_elem?-lt primes (t.prime_index + 1) lt in
      let pos = prime_positive primes (t.prime_index + 1) n refl e in
      let empty : IsBuckets law n (unused n) = record {
        width = length-replicate n [];
        positive = pos;
        placed = IsPlaced-unused n 0 n;
      } in
      let h = rehash-HasMoved law n t.table (unused n) empty in
      let count : length (items (rehash n t.table (unused n))) ≡ length (items t.table) =
        h.count
        ∙ ap (λ z. length z + length (items t.table)) (items-unused n)
        ∙ (let z : 0 + length (items t.table) ≡ length (items t.table) = omega arith in z) in
      let new = rehash n t.table (unused n) in
      (
        record t {
          table = new;
          length = n;
          prime_index = t.prime_index + 1;
          current_load_factor = fl.ratio (used_buckets new) n;
        },
        rw e refl,
        record { buckets = h.buckets; counted = v.counted ∙ ap (λ k. k % uint) (sym count) },
        (λ q. h.same q ∙ ap (λ z. values q z ++ stored q t) (items-unused n)),
        count,
      )

  -- Insertion has room where the load factor is not high, or the table can still be expanded.
  abbrev pub HasRoom : XanHashTable F → Type 0
  HasRoom t = (fl.is_high t.current_load_factor ≡ false) ⊎ CanExpand t

  make_room-IsTable :
      (t : XanHashTable F)
      → IsTable t
      → HasRoom t
      → (t' : XanHashTable F) × (make_room t ≡ some t')
        × IsTable t'
        × ((q : ℕ) → stored q t' ≡ stored q t)
        × (length (items t'.table) ≡ length (items t.table))
  unfolding make_room
  make_room-IsTable t v (inl p) = (t, rw p refl, v, (λ q. refl), refl)
  make_room-IsTable t v (inr c) =
      let (t', e, w, same, count) = expand-IsTable t v c.1 in
      elim (Bool-cases (fl.is_high t.current_load_factor)) [
        | inl p ↦ (
          t',
          ap (λ b. if b then if t.has_fixed_length then none else expand t else some t) p
              ∙ ap (λ b. if b then none else expand t) c.0
              ∙ e,
          w,
          same,
          count,
        )
        | inr p ↦ (t, rw p refl, v, (λ q. refl), refl)
      ]

  -- Inserting where there is room, also where the table must grow first, succeeds and adds the element
  -- at the end of what the table has under the keys that equal its key; what is under the others stays,
  -- the table is a table again and has one item more.
  pub insert-IsTable :
      (k e : ℕ) (t : XanHashTable F)
      → IsTable t
      → HasRoom t
      → (t' : XanHashTable F) × (insert k e t ≡ some t')
        × IsTable t'
        × ((q : ℕ) → stored q t' ≡ stored q t ++ (if ks.equals k q then e ∷ [] else []))
        × (length (items t'.table) ≡ length (items t.table) + 1)
  unfolding insert insert_item
  insert-IsTable k e t v r =
      let (t', made, w, same, count) = make_room-IsTable t v r in
      let n = t'.length in
      let b = w.buckets in
      let used : (t.length == 0) ≡ false = (let p = v.buckets.positive in ground (arith, p)) in
      let more = store_item-length law n t'.table b k e in
      (
        insert_item k e t',
        rw (used, made) refl,
        record {
          buckets = store_item-IsBuckets law n t'.table b k e;
          counted = omega (arith, w.counted, more);
        },
        (λ q.
            store_item-values law n t'.table b q k e
            ∙ ap (λ z. z ++ (if ks.equals k q then e ∷ [] else [])) (same q)),
        more ∙ ap (λ z. z + 1) count,
      )
