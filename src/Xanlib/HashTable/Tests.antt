-- ===== src/Xanlib/HashTable/Tests.antt =====
-- The theorems on hash tables at a table of two buckets. Two keys are equal if they have the same half.
use cam_alias_checker.Prelude.{
  ℕ, ◌+◌, ◌-◌, ◌*◌, ◌/◌, ◌≡◌, ◌<◌, refl, true, false, none, some, List, [], ◌∷◌, ◌++◌, length, drop,
  get_elem?, leb, ◌==◌, if◌then◌else◌, arith, inr, ◌⊎◌,
}
use cam_alias_checker.Xanlib.HashTable.{
  Keys, LoadFactor, XanHashTableItem, XanHashTable, primes, new, improve, improve_hash,
}
use cam_alias_checker.Xanlib.HashTable.Ops.{find_item, insert, lookup, remove_element}
use cam_alias_checker.Xanlib.HashTable.Placed.{IsKeys, items}
use cam_alias_checker.Xanlib.HashTable.Insert.{IsTable, stored, insert-IsTable}
use cam_alias_checker.Xanlib.HashTable.Lookup.{first_or_null, lookup-stored}
use cam_alias_checker.Xanlib.HashTable.Remove.{remove_element-stored}
use cam_alias_checker.Xanlib.HashTable.Whole.{new-IsTable}

instance halves : Keys
halves = record { hash = λ a. a / 2; equals = λ a b. a / 2 == b / 2 }

-- millionths in place of `float`
instance millionths : LoadFactor ℕ
millionths = record {
  zero_load = 0;
  share = λ n. 1000000 / n;
  add = λ a b. a + b;
  sub = λ a b. a - b;
  ratio = λ a b. a * 1000000 / b;
  is_high = λ a. leb 750000 a;
}

law : IsKeys halves
unfolding halves
law = record {
  equals_refl = λ a. ground arith;
  equals_symm = λ a b. ground arith;
  equals_trans = λ a b c. ground arith;
  hash-equals = λ a b. ground arith;
}

abbrev item : (index key element : ℕ) → XanHashTableItem
item i k e = record { index = i; element_id = k; element = e }

-- both buckets used, and so no room without growing
abbrev three : XanHashTable ℕ
three = record {
  table = (item 0 6 60 ∷ []) ∷ (item 1 2 20 ∷ item 1 3 30 ∷ []) ∷ [];
  prime_index = 0;
  length = 2;
  size = 3;
  has_fixed_length = false;
  current_load_factor = 1000000;
  clone = none;
}

three-IsTable : IsTable law three
unfolding halves improve improve_hash items
three-IsTable = record {
  buckets = record {
    width = refl;
    positive = omega arith;
    placed = ((refl, refl, tt), ((refl, refl, (refl, refl, tt)), tt));
  };
  counted = refl;
}

-- The table grows to 97 buckets.
insert-IsTable_example :
    (t' : XanHashTable ℕ) × (insert 7 70 three ≡ some t')
    × IsTable law t'
    × ((q : ℕ)
        → stored law q t' ≡ stored law q three ++ (if halves.equals 7 q then 70 ∷ [] else []))
    × (length (items t'.table) ≡ length (items three.table) + 1)
insert-IsTable_example = insert-IsTable law 7 70 three three-IsTable (inr (refl, omega arith))

lookup-stored_example : lookup 3 three ≡ some (first_or_null (stored law 3 three))
lookup-stored_example = lookup-stored law 3 three three-IsTable

remove_element-stored_example :
    ((stored law 3 three ≡ []) × (remove_element 3 three ≡ none))
    ⊎ ((e : ℕ) × (es : List ℕ) × (stored law 3 three ≡ e ∷ es)
        × (old : ℕ) × (t' : XanHashTable ℕ) × (remove_element 3 three ≡ some (old, t'))
        × (halves.equals old 3 ≡ true)
        × IsTable law t'
        × ((q : ℕ)
            → stored law q t'
              ≡ (if halves.equals 3 q then drop 1 (stored law q three) else stored law q three))
        × (length (items three.table) ≡ length (items t'.table) + 1))
remove_element-stored_example = remove_element-stored law 3 three three-IsTable

new-IsTable_example :
    (t : XanHashTable ℕ) × (new 100 false ≡ some t)
    × IsTable law t
    × ((q : ℕ) → stored law q t ≡ [])
    × (100 < t.length)
    × (get_elem? primes t.prime_index ≡ some t.length)
new-IsTable_example = new-IsTable law 100 false (omega arith)

-- The first of two elements under a key is found.
found_first : lookup 3 three ≡ some 20
unfolding lookup halves improve improve_hash find_item
found_first = refl
