-- ===== src/Xanlib/HashTable/Walk.antt =====
-- The functions of xanlib/src/xantable.c that go through a whole table. The pointer to an item is its
-- bucket and its place there. A `XanList` that is filled by xanList_insert has the last item inserted in
-- front.
use cam_alias_checker.Prelude.{
  ℕ, ◌+◌, Option, none, some, List, [], ◌∷◌, ◌++◌, length, get_or, get_elem?, drop, take, ltb, leb,
  ◌==◌, if◌then◌else◌, ◌>>=◌,
}
use cam_alias_checker.Xanlib.HashTable.{
  Keys, LoadFactor, XanHashTableItem, Bucket, XanHashTable, new, set_clone_function,
  get_clone_function, elements_inside,
}
use cam_alias_checker.Xanlib.HashTable.Ops.{insert, shrunk}

-- the first bucket used, `i` and later
unfoldable pub first_used : List Bucket → (i : ℕ) → Option (ℕ × ℕ)
first_used [] i = none
first_used ([] ∷ bs) i = first_used bs (i + 1)
first_used ((x ∷ xs) ∷ bs) i = some (i, 0)

unfoldable pub list_bucket : (XanHashTableItem → ℕ) → Bucket → List ℕ → List ℕ
list_bucket f [] l = l
list_bucket f (x ∷ xs) l = list_bucket f xs (f x ∷ l)

unfoldable pub list_table : (XanHashTableItem → ℕ) → List Bucket → List ℕ → List ℕ
unfolding list_bucket
list_table f [] l = l
list_table f (b ∷ bs) l = list_table f bs (list_bucket f b l)

unfoldable pub place_bucket : (i j : ℕ) → Bucket → List (ℕ × ℕ) → List (ℕ × ℕ)
place_bucket i j [] l = l
place_bucket i j (x ∷ xs) l = place_bucket i (j + 1) xs ((i, j) ∷ l)

unfoldable pub place_table : (i : ℕ) → List Bucket → List (ℕ × ℕ) → List (ℕ × ℕ)
unfolding place_bucket
place_table i [] l = l
place_table i (b ∷ bs) l = place_table (i + 1) bs (place_bucket i 0 b l)

-- An array of `n` pointers filled from `index` on: the pointers written, or a failed assertion.
unfoldable pub fill_bucket : (XanHashTableItem → ℕ) → (n index : ℕ) → Bucket → Option (ℕ × List ℕ)
fill_bucket f n i [] = some (i, [])
fill_bucket f n i (x ∷ xs) =
    let rest = fill_bucket f n (i + 1) xs >>= λ r. some (r.0, f x ∷ r.1) in
    if ltb i n then rest else none

unfoldable pub fill_table : (XanHashTableItem → ℕ) → (n index : ℕ) → List Bucket → Option (List ℕ)
unfolding fill_bucket
fill_table f n i [] = some []
fill_table f n i (b ∷ bs) = do
  r ← fill_bucket f n i b
  rest ← fill_table f n r.0 bs
  some (r.1 ++ rest)

-- `emptyOutTable`'s loop, with its assertion
unfoldable pub empty_buckets : (i : ℕ) → List Bucket → Option (List Bucket)
empty_buckets i [] = some []
empty_buckets i ([] ∷ bs) = do rest ← empty_buckets (i + 1) bs; some ([] ∷ rest)
empty_buckets i ((x ∷ xs) ∷ bs) =
    let rest = empty_buckets (i + 1) bs >>= λ r. some ([] ∷ r) in
    if x.index == i then rest else none

module _ {F : Type 0} where
  unfoldable pub first : XanHashTable F → Option (Option (ℕ × ℕ))
  unfolding first_used
  first t = if t.length == 0 then none else some (first_used t.table 0)

  abbrev pub item_at : (ℕ × ℕ) → XanHashTable F → Option XanHashTableItem
  item_at p t = get_elem? (get_or t.table p.0 []) p.1

  -- The item behind another one; `none` where no item is at the pointer.
  unfoldable pub next : XanHashTable F → (ℕ × ℕ) → Option (Option (ℕ × ℕ))
  unfolding first_used
  next t p = do
    x ← if t.length == 0 then none else item_at p t
    let later = first_used (drop (x.index + 1) t.table) (x.index + 1)
    some (elim (item_at (p.0, p.1 + 1) t) [ none ↦ later | some _ ↦ some (p.0, p.1 + 1) ])

  abbrev pub to_list : XanHashTable F → List ℕ
  to_list t = list_table (λ x. x.element) t.table []

  abbrev pub to_key_list : XanHashTable F → List ℕ
  to_key_list t = list_table (λ x. x.element_id) t.table []

  abbrev pub to_slot_list : XanHashTable F → List (ℕ × ℕ)
  to_slot_list t = place_table 0 t.table []

  abbrev pub to_item_list : XanHashTable F → List (ℕ × ℕ)
  to_item_list t = place_table 0 t.table []

  -- What is written of an array of `size` pointers.
  abbrev pub to_key_array : XanHashTable F → Option (List ℕ)
  to_key_array t = fill_table (λ x. x.element_id) t.size 0 t.table

  abbrev pub to_data_array : XanHashTable F → Option (List ℕ)
  to_data_array t = fill_table (λ x. x.element) t.size 0 t.table

module _ {F : Type 0} ⦃fl : LoadFactor F⦄ where
  unfoldable pub empty_out_table : XanHashTable F → Option (XanHashTable F)
  unfolding empty_buckets
  empty_out_table t = do
    bs ← empty_buckets 0 t.table
    some (record t { table = bs; current_load_factor = fl.zero_load; size = 0 })

  -- The item at a pointer is taken out of the bucket that its index names; no item is there if the
  -- index is that of another bucket.
  unfoldable pub remove_item : (ℕ × ℕ) → XanHashTable F → Option (XanHashTable F)
  remove_item p t = item_at p t >>= λ x.
      let b = get_or t.table x.index [] in
      if x.index == p.0
      then some (shrunk p.0 (take p.1 b ++ drop (p.1 + 1) b) t)
      else if leb (length b) 1
      then none
      else some t

abbrev pub cloned : Option (ℕ → ℕ) → ℕ → ℕ
cloned none e = e
cloned (some f) e = f e

module _ {F : Type 0} ⦃fl : LoadFactor F⦄ ⦃ks : Keys⦄ where
  -- The loops of `cloneTable`.
  unfoldable pub clone_bucket : Bucket → XanHashTable F → Option (XanHashTable F)
  unfolding insert
  clone_bucket [] t = some t
  clone_bucket (x ∷ xs) t = do
    t' ← insert x.element_id (cloned t.clone x.element) t
    clone_bucket xs t'

  unfoldable pub clone_buckets : List Bucket → XanHashTable F → Option (XanHashTable F)
  unfolding clone_bucket
  clone_buckets [] t = some t
  clone_buckets (b ∷ bs) t = do t' ← clone_bucket b t; clone_buckets bs t'

  unfoldable pub clone_table : XanHashTable F → Option (XanHashTable F)
  unfolding clone_buckets new
  clone_table t = do
    fresh ← new t.length t.has_fixed_length
    t' ← clone_buckets t.table (set_clone_function fresh (get_clone_function t))
    if elements_inside t' == elements_inside t then some t' else none
