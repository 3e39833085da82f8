-- ===== src/Xanlib/HashTable/Ops.antt =====
-- The functions of xanlib/src/xantable.c that insert, find, replace and remove.
use cam_alias_checker.Prelude.{
  ℕ, ◌+◌, ◌-◌, ◌%◌, Bool, ◌&&◌, Option, none, some, List, [], ◌∷◌, ◌++◌, length, get_or, get_elem?,
  set, replicate, ◌==◌, if◌then◌else◌, ◌>>=◌,
}
use cam_alias_checker.Xanlib.HashTable.{
  Keys, LoadFactor, XanHashTableItem, Bucket, XanHashTable, primes, uint, improve_hash,
}

-- `memset` of a block of buckets, none of them used
abbrev pub unused : ℕ → List Bucket
unused n = replicate n []

-- the buckets used
unfoldable pub used_buckets : List Bucket → ℕ
used_buckets [] = 0
used_buckets ([] ∷ bs) = used_buckets bs
used_buckets ((x ∷ b) ∷ bs) = 1 + used_buckets bs

-- An item stored at the end of a bucket, be it used or not.
abbrev pub store_item : List Bucket → (position key element : ℕ) → List Bucket
store_item bs i k e =
    set bs i (get_or bs i [] ++ record { index = i; element_id = k; element = e } ∷ [])

-- The first item that passes a test.
unfoldable pub find_item : (XanHashTableItem → Bool) → Bucket → Option XanHashTableItem
find_item f [] = none
find_item f (x ∷ xs) = let rest = find_item f xs in if f x then some x else rest

-- A place in a bucket, if the item with the key has one: the pointer to the item.
unfoldable pub find_place : (XanHashTableItem → Bool) → Bucket → Option ℕ
find_place f [] = none
find_place f (x ∷ xs) =
    let rest = find_place f xs >>= λ i. some (i + 1) in if f x then some 0 else rest

unfoldable pub replace_first : (XanHashTableItem → Bool) → (element : ℕ) → Bucket → Bucket
replace_first f e [] = []
replace_first f e (x ∷ xs) =
    let rest = replace_first f e xs in if f x then record x { element = e } ∷ xs else x ∷ rest

-- the item taken out, and those that stay
unfoldable pub take_first : (XanHashTableItem → Bool) → Bucket → Option (XanHashTableItem × Bucket)
take_first f [] = none
take_first f (x ∷ xs) =
    let rest = take_first f xs >>= λ r. some (r.0, x ∷ r.1) in if f x then some (x, xs) else rest

-- the element of an item, or NULL
abbrev pub element_or_null : Option XanHashTableItem → ℕ
element_or_null none = 0
element_or_null (some x) = x.element

module _ ⦃ks : Keys⦄ where
  abbrev pub has_key : ℕ → XanHashTableItem → Bool
  has_key key x = ks.equals x.element_id key

  abbrev pub has_pair : (key element : ℕ) → XanHashTableItem → Bool
  has_pair key e x = ks.equals x.element_id key && x.element == e

  -- The loops of `_xanHashTableExpand`, over the items of a bucket and over the buckets.
  unfoldable pub rehash_bucket : (new_length : ℕ) → Bucket → List Bucket → List Bucket
  rehash_bucket n [] new = new
  rehash_bucket n (x ∷ xs) new =
      rehash_bucket n xs (store_item new (improve_hash x.element_id % n) x.element_id x.element)

  unfoldable pub rehash : (new_length : ℕ) → List Bucket → List Bucket → List Bucket
  unfolding rehash_bucket
  rehash n [] new = new
  rehash n (b ∷ bs) new = rehash n bs (rehash_bucket n b new)

module _ {F : Type 0} ⦃fl : LoadFactor F⦄ where
  -- A bucket written back after an item was taken out: the load falls when the bucket is left empty.
  abbrev pub shrunk : (position : ℕ) → Bucket → XanHashTable F → XanHashTable F
  shrunk i b t = record t {
    table = set t.table i b;
    current_load_factor =
        if length b == 0
        then fl.sub t.current_load_factor (fl.share t.length)
        else t.current_load_factor;
    size = (t.size + (uint - 1)) % uint;
  }

module _ {F : Type 0} ⦃fl : LoadFactor F⦄ ⦃ks : Keys⦄ where
  abbrev pub position_of : ℕ → XanHashTable F → ℕ
  position_of key t = improve_hash key % t.length

  abbrev pub bucket_of : ℕ → XanHashTable F → Bucket
  bucket_of key t = get_or t.table (position_of key t) []

  -- `none` behind the end of the table of primes
  unfoldable pub expand : XanHashTable F → Option (XanHashTable F)
  unfolding rehash used_buckets
  expand t = do
    n ← get_elem? primes (t.prime_index + 1)
    let new = rehash n t.table (unused n)
    some record t {
      table = new;
      length = n;
      prime_index = t.prime_index + 1;
      current_load_factor = fl.ratio (used_buckets new) n;
    }

  -- `insert` once there is room
  unfoldable pub insert_item : (key element : ℕ) → XanHashTable F → XanHashTable F
  insert_item key e t = record t {
    table = store_item t.table (position_of key t) key e;
    current_load_factor =
        if length (bucket_of key t) == 0
        then fl.add t.current_load_factor (fl.share t.length)
        else t.current_load_factor;
    size = (t.size + 1) % uint;
  }

  unfoldable pub make_room : XanHashTable F → Option (XanHashTable F)
  unfolding expand
  make_room t =
      if fl.is_high t.current_load_factor
      then if t.has_fixed_length then none else expand t
      else some t

  unfoldable pub insert : (key element : ℕ) → XanHashTable F → Option (XanHashTable F)
  unfolding make_room insert_item
  insert key e t = do t' ← if t.length == 0 then none else make_room t; some (insert_item key e t')

  unfoldable pub replace : (key element : ℕ) → XanHashTable F → Option (XanHashTable F)
  unfolding replace_first
  replace key e t =
      let i = position_of key t in
      let b = replace_first (has_key key) e (bucket_of key t) in
      if t.length == 0 then none else some (record t { table = set t.table i b })

  unfoldable pub lookup : (key : ℕ) → XanHashTable F → Option ℕ
  unfolding find_item
  lookup key t =
      let e = element_or_null (find_item (has_key key) (bucket_of key t)) in
      if t.length == 0 then none else some e

  -- the pointer to an item, as its bucket and its place there, or NULL
  unfoldable pub lookup_item : (key : ℕ) → XanHashTable F → Option (Option (ℕ × ℕ))
  unfolding find_place
  lookup_item key t =
      let p : Option (ℕ × ℕ) = do
        j ← find_place (has_key key) (bucket_of key t)
        some (position_of key t, j)
      in if t.length == 0 then none else some p

  -- the key that the item had, and the table without the item
  unfoldable pub remove_element : (key : ℕ) → XanHashTable F → Option (ℕ × XanHashTable F)
  unfolding take_first
  remove_element key t = do
    r ← if t.length == 0 then none else take_first (has_key key) (bucket_of key t)
    some (r.0.element_id, shrunk (position_of key t) r.1 t)

  unfoldable pub remove_element_key_pair :
      (key element : ℕ) → XanHashTable F → Option (XanHashTable F)
  unfolding take_first
  remove_element_key_pair key e t = do
    r ← if t.length == 0 then none else take_first (has_pair key e) (bucket_of key t)
    some (shrunk (position_of key t) r.1 t)

  -- The loops over the items of a list: its pointers.
  unfoldable pub add_list : List ℕ → XanHashTable F → Option (XanHashTable F)
  unfolding insert
  add_list [] t = some t
  add_list (d ∷ ds) t = do t' ← insert d d t; add_list ds t'

  unfoldable pub remove_elements : List ℕ → XanHashTable F → Option (XanHashTable F)
  unfolding remove_element
  remove_elements [] t = some t
  remove_elements (k ∷ ks') t = do r ← remove_element k t; remove_elements ks' r.1
