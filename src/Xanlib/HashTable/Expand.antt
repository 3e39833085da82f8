-- ===== src/Xanlib/HashTable/Expand.antt =====
-- A table that grows keeps what it has under each key.
use cam_alias_checker.Prelude.{
  ℕ, zero, suc, ◌+◌, ◌<◌, ◌≡◌, refl, ap, sym, ◌∙◌, Bool, true, false, ◌&&◌, ltb, some, List, [],
  ◌∷◌, ◌++◌, append_assoc, append-nil, length, length-append, get_elem?, if◌then◌else◌, arith,
}
use cam_alias_checker.Xanlib.HashTable.{Keys, XanHashTableItem, Bucket}
use cam_alias_checker.Xanlib.HashTable.Ops.{store_item, unused, rehash_bucket, rehash}
use cam_alias_checker.Xanlib.HashTable.Placed.{IsKeys, items, values, home, values-append}
use cam_alias_checker.Xanlib.HashTable.Store.{
  IsBuckets, store_item-IsBuckets, store_item-values, store_item-length,
}

pub items-unused : (m : ℕ) → items (unused m) ≡ []
unfolding items
items-unused zero = refl
items-unused (suc m) = items-unused m

if-append :
    (b : Bool) (e : ℕ) (xs : List ℕ) → (if b then e ∷ [] else []) ++ xs ≡ (if b then e ∷ xs else xs)
if-append true e xs = refl
if-append false e xs = refl

abbrev pub all_positive : List ℕ → Bool
all_positive [] = true
all_positive (p ∷ ps) = ltb 0 p && all_positive ps

-- The primes of the table are positive.
pub prime_positive :
    (ps : List ℕ) (i p : ℕ) → all_positive ps ≡ true → get_elem? ps i ≡ some p → 0 < p
prime_positive [] i p a e = cc
prime_positive (x ∷ ps) zero p a e = ground (arith, e)
prime_positive (x ∷ ps) (suc i) p a e = prime_positive ps i p (ground (arith, a)) e

module _ ⦃ks : Keys⦄ (law : IsKeys ks) where
  -- `r` has what `new` has and then the items `more`.
  pub record HasMoved (n : ℕ) (new : List Bucket) (more : List XanHashTableItem) (r : List Bucket)
      : Type 0 where
    pub buckets : IsBuckets law n r
    pub same : (q : ℕ) → values q (items r) ≡ values q (items new) ++ values q more
    pub count : length (items r) ≡ length (items new) + length more

  HasMoved-trans :
      (n : ℕ) (a b c : List Bucket) (xs ys : List XanHashTableItem)
      → HasMoved n a xs b
      → HasMoved n b ys c
      → HasMoved n a (xs ++ ys) c
  HasMoved-trans n a b c xs ys v w = record {
    buckets = w.buckets;
    same = λ q.
        w.same q
        ∙ ap (λ z. z ++ values q ys) (v.same q)
        ∙ append_assoc (values q (items a)) (values q xs) (values q ys)
        ∙ ap (λ z. values q (items a) ++ z) (sym (values-append q xs ys));
    count = omega (arith, v.count, w.count, length-append xs ys);
  }

  rehash_bucket-HasMoved :
      (n : ℕ) (b : Bucket) (new : List Bucket)
      → IsBuckets law n new
      → HasMoved n new b (rehash_bucket n b new)
  unfolding rehash_bucket values
  rehash_bucket-HasMoved n [] new v = record {
    buckets = v;
    same = λ q. sym (append-nil (values q (items new)));
    count = omega arith;
  }
  rehash_bucket-HasMoved n (x ∷ xs) new v =
      let k = x.element_id in
      let one = store_item new (home k n) k x.element in
      let rest = rehash_bucket-HasMoved n xs one (store_item-IsBuckets law n new v k x.element) in
      record {
        buckets = rest.buckets;
        same = λ q.
            rest.same q
            ∙ ap (λ z. z ++ values q xs) (store_item-values law n new v q k x.element)
            ∙ append_assoc (values q (items new)) (if ks.equals k q then x.element ∷ [] else [])
                (values q xs)
            ∙ ap (λ z. values q (items new) ++ z)
                (if-append (ks.equals k q) x.element (values q xs));
        count = omega (arith, rest.count, store_item-length law n new v k x.element);
      }

  pub rehash-HasMoved :
      (n : ℕ) (bs new : List Bucket)
      → IsBuckets law n new
      → HasMoved n new (items bs) (rehash n bs new)
  unfolding rehash items values
  rehash-HasMoved n [] new v = record {
    buckets = v;
    same = λ q. sym (append-nil (values q (items new)));
    count = omega arith;
  }
  rehash-HasMoved n (b ∷ bs) new v =
      let one = rehash_bucket-HasMoved n b new v in
      let rest = rehash-HasMoved n bs (rehash_bucket n b new) one.buckets in
      HasMoved-trans n new (rehash_bucket n b new) (rehash n bs (rehash_bucket n b new)) b
        (items bs) one rest
