-- ===== src/Xanlib/HashTable/Whole.antt =====
-- New tables, empty ones, and what the lists and arrays of a whole table have.
use cam_alias_checker.Prelude.{
  ℕ, zero, suc, ◌+◌, ◌%◌, ◌≤◌, ◌<◌, ◌≡◌, refl, ap, sym, ◌∙◌, Bool, true, none, some, List, [], ◌∷◌,
  length, length-append, length-replicate, get_elem?, map, reverse, subst, ltb, ◌==◌, arith,
  Bool-cases, inl, inr, eq_of_some-eq, ltb→lt,
}
use mathlib.Core.List.{reverse_aux, reverse_aux-append, map-append}
use cam_alias_checker.Xanlib.HashTable.{
  Keys, LoadFactor, XanHashTableItem, Bucket, XanHashTable, uint, primes, longer_prime, of_prime,
  new,
}
use cam_alias_checker.Xanlib.HashTable.Ops.{unused}
use cam_alias_checker.Xanlib.HashTable.Walk.{
  list_bucket, list_table, to_list, to_key_list, fill_bucket, fill_table, to_data_array,
  to_key_array, empty_buckets, empty_out_table,
}
use cam_alias_checker.Xanlib.HashTable.Placed.{IsKeys, items, values, IsPlaced, IsPlaced-unused}
use cam_alias_checker.Xanlib.HashTable.Expand.{items-unused}
use cam_alias_checker.Xanlib.HashTable.Insert.{IsTable, stored}

fill_bucket-append :
    (f : XanHashTableItem → ℕ) (n i : ℕ) (b : Bucket)
    → i + length b ≤ n
    → fill_bucket f n i b ≡ some (i + length b, map f b)
unfolding fill_bucket
fill_bucket-append f n i [] le = ap (λ k. some (k, [])) (let e : i ≡ i + 0 = omega arith in e)
fill_bucket-append f n i (x ∷ b) le =
    let lt : ltb i n ≡ true = ground (arith, le) in
    let rest = fill_bucket-append f n (i + 1) b (omega (arith, le)) in
    let e : i + 1 + length b ≡ i + suc (length b) = omega arith in rw (lt, rest, e) refl

fill_table-items :
    (f : XanHashTableItem → ℕ) (n i : ℕ) (bs : List Bucket)
    → i + length (items bs) ≤ n
    → fill_table f n i bs ≡ some (map f (items bs))
unfolding fill_table items
fill_table-items f n i [] le = refl
fill_table-items f n i (b ∷ bs) le =
    let one = fill_bucket-append f n i b (omega (arith, le, length-append b (items bs))) in
    let rest =
      fill_table-items f n (i + length b) bs (omega (arith, le, length-append b (items bs))) in
    rw (one, rest) (ap some (sym (map-append f b (items bs))))

list_bucket-reverse_aux :
    (f : XanHashTableItem → ℕ) (b : Bucket) (l : List ℕ)
    → list_bucket f b l ≡ reverse_aux (map f b) l
unfolding list_bucket
list_bucket-reverse_aux f [] l = refl
list_bucket-reverse_aux f (x ∷ b) l = list_bucket-reverse_aux f b (f x ∷ l)

list_table-reverse_aux :
    (f : XanHashTableItem → ℕ) (bs : List Bucket) (l : List ℕ)
    → list_table f bs l ≡ reverse_aux (map f (items bs)) l
unfolding list_table items
list_table-reverse_aux f [] l = refl
list_table-reverse_aux f (b ∷ bs) l =
    list_table-reverse_aux f bs (list_bucket f b l)
    ∙ ap (reverse_aux (map f (items bs))) (list_bucket-reverse_aux f b l)
    ∙ sym (reverse_aux-append (map f b) (map f (items bs)) l)
    ∙ ap (λ z. reverse_aux z l) (sym (map-append f b (items bs)))

-- The first prime that is longer than `n`, at a place `j`.
abbrev HasPrime : (ps : List ℕ) (i n : ℕ) → Type 0
HasPrime ps i n =
    (j : ℕ) × (q : ℕ) × (longer_prime ps i n ≡ some (i + j, q))
    × (get_elem? ps j ≡ some q)
    × (n < q)

here : (x : ℕ) (ps : List ℕ) (i n : ℕ) → n < x → HasPrime (x ∷ ps) i n
unfolding longer_prime
here x ps i n less =
    let test : ltb n x ≡ true = ground (arith, less) in
    (0, x, rw test (ap (λ k. some (k, x)) (let z : i ≡ i + 0 = omega arith in z)), refl, less)

longer_prime_lem : (ps : List ℕ) (i n m p : ℕ) → get_elem? ps m ≡ some p → n < p → HasPrime ps i n
unfolding longer_prime
longer_prime_lem [] i n m p e lt = cc
longer_prime_lem (x ∷ ps) i n zero p e lt =
    let same : x ≡ p = eq_of_some-eq e in
    let less : n < x = omega (arith, same, lt) in here x ps i n less
longer_prime_lem (x ∷ ps) i n (suc m) p e lt = elim (Bool-cases (ltb n x)) [
  | inl h ↦ here x ps i n (ltb→lt n x h)
  | inr h ↦
      let (j, q, run, at, less) = longer_prime_lem ps (i + 1) n m p e lt in
      let next : i + 1 + j ≡ i + suc j = omega arith in
      (suc j, q, rw h (run ∙ ap (λ k. some (k, q)) next), at, less)
]

module _ ⦃ks : Keys⦄ where
  empty_buckets-unused :
      (n i : ℕ) (bs : List Bucket)
      → IsPlaced n i bs
      → empty_buckets i bs ≡ some (unused (length bs))
  unfolding empty_buckets
  empty_buckets-unused n i [] v = refl
  empty_buckets-unused n i ([] ∷ bs) v = rw (empty_buckets-unused n (i + 1) bs v.1) refl
  empty_buckets-unused n i ((x ∷ b) ∷ bs) v =
      let here : (x.index == i) ≡ true = (let e = v.0.0 in ground (arith, e)) in
      rw (here, empty_buckets-unused n (i + 1) bs v.1) refl

module _ {F : Type 0} ⦃fl : LoadFactor F⦄ ⦃ks : Keys⦄ (law : IsKeys ks) where
  -- The arrays have a pointer for each item, and the lists have them in the opposite order; the assertion
  -- on the index never fails.
  pub to_data_array-items :
      (t : XanHashTable F)
      → IsTable law t
      → length (items t.table) < uint
      → (to_data_array t ≡ some (map (λ x. x.element) (items t.table)))
        × (to_key_array t ≡ some (map (λ x. x.element_id) (items t.table)))
        × (to_list t ≡ reverse (map (λ x. x.element) (items t.table)))
        × (to_key_list t ≡ reverse (map (λ x. x.element_id) (items t.table)))
  to_data_array-items t v lt =
      let le : 0 + length (items t.table) ≤ t.size = omega (arith, v.counted, lt) in
      (
        fill_table-items (λ x. x.element) t.size 0 t.table le,
        fill_table-items (λ x. x.element_id) t.size 0 t.table le,
        list_table-reverse_aux (λ x. x.element) t.table [],
        list_table-reverse_aux (λ x. x.element_id) t.table [],
      )

  -- An unused block of a positive length is a table with nothing in it.
  unused-IsTable :
      (t : XanHashTable F)
      → 0 < t.length
      → t.table ≡ unused t.length
      → t.size ≡ 0
      → IsTable law t × ((q : ℕ) → stored law q t ≡ [])
  unfolding values
  unused-IsTable t pos e z =
      let none_there : items t.table ≡ [] = ap items e ∙ items-unused t.length in
      (
        record {
          buckets = record {
            width = ap length e ∙ length-replicate t.length [];
            positive = pos;
            placed = subst (IsPlaced t.length 0) (sym e) (IsPlaced-unused t.length 0 t.length);
          };
          counted = z ∙ ap (λ l. length l % uint) (sym none_there);
        },
        (λ q. ap (values q) none_there),
      )

  -- `xanHashTable_emptyOutTable` leaves a table with nothing in it, and its assertion does not fail.
  pub empty_out_table-IsTable :
      (t : XanHashTable F)
      → IsTable law t
      → (t' : XanHashTable F) × (empty_out_table t ≡ some t')
        × IsTable law t'
        × ((q : ℕ) → stored law q t' ≡ [])
  unfolding empty_out_table
  empty_out_table-IsTable t v =
      let b = v.buckets in
      let run = empty_buckets-unused t.length 0 t.table b.placed in
      let t' = record t {
        table = unused (length t.table);
        current_load_factor = fl.zero_load;
        size = 0;
      } in
      let (w, s) = unused-IsTable t' b.positive (ap unused b.width) refl in (t', rw run refl, w, s)

  -- A new table, for a length below the greatest of the primes, is longer than was asked for, has
  -- nothing in it, and has the length of the prime at its index.
  pub new-IsTable :
      (n : ℕ) (fixed : Bool)
      → n < 1610612741
      → (t : XanHashTable F) × (new n fixed ≡ some t)
        × IsTable law t
        × ((q : ℕ) → stored law q t ≡ [])
        × (n < t.length)
        × (get_elem? primes t.prime_index ≡ some t.length)
  unfolding new
  new-IsTable n fixed lt =
      let (j, p, run, at, less) = longer_prime_lem primes 0 n 25 1610612741 refl lt in
      let t : XanHashTable F = record {
        table = unused p;
        prime_index = j;
        length = p;
        size = 0;
        has_fixed_length = fixed;
        current_load_factor = fl.zero_load;
        clone = none;
      } in
      let found : longer_prime primes 0 n ≡ some (j, p) =
        run ∙ ap (λ k. some (k, p)) (let z : 0 + j ≡ j = omega arith in z) in
      let (w, s) = unused-IsTable t (omega (arith, less)) refl refl in
      (t, ap (of_prime fixed) found, w, s, less, at)
