-- ===== src/Xanlib/LinkedList/Find.antt =====
-- `xanList_find`, `xanList_getPositionNumberFromElement` and `xanList_equalsInstancesNumber` against
-- plain functions on the items of the list.
use cam_alias_checker.Prelude.{
  ℕ, zero, suc, ◌+◌, ◌<◌, ◌≡◌, refl, Option, none, some, [], ◌∷◌, arith, ◌==◌, if◌then◌else◌,
  length,
}
use cam_alias_checker.Xanlib.LinkedList.Memory.{Ptr, null, Memory}
use cam_alias_checker.Xanlib.LinkedList.Items.{XanList}
use cam_alias_checker.Xanlib.LinkedList.Shape.{Cells, head_ptr, IsChain, IsList}
use cam_alias_checker.Xanlib.LinkedList.Queries.{
  find, find_from, position_from, get_position_number_from_element, count_from,
  equals_instances_number,
}

-- the address of the first item that holds `x`
unfoldable pub address_of : ℕ → Cells → Ptr
address_of x [] = null
address_of x ((p, v) ∷ xs) = if v == x then p else address_of x xs

pub address_of_first : (p : Ptr) (x : ℕ) (xs : Cells) → address_of x ((p, x) ∷ xs) ≡ p
unfolding address_of
address_of_first p x xs = ground arith

-- the position of the first item that holds `x`
unfoldable pub position_of : ℕ → ℕ → Cells → Option ℕ
position_of x n [] = none
position_of x n ((p, v) ∷ xs) = if v == x then some n else position_of x (n + 1) xs

unfoldable pub occurrences : ℕ → Cells → ℕ
occurrences x [] = 0
occurrences x ((p, v) ∷ xs) = (if v == x then 1 else 0) + occurrences x xs

module _ (m : Memory) (x : ℕ) where
  find_from-chain :
      (fuel : ℕ) (q : Ptr) (xs : Cells)
      → length xs < fuel
      → IsChain m.cell q xs
      → find_from fuel x (head_ptr xs) m ≡ some (address_of x xs, m)
  unfolding find_from address_of
  find_from-chain zero q xs lt c = absurd (omega arith)
  find_from-chain (suc fuel) q [] lt c = refl
  find_from-chain (suc fuel) q ((p, v) ∷ xs) lt c =
      ground (arith, c.1, find_from-chain fuel p xs (omega arith) c.3)

  position_from-chain :
      (fuel n : ℕ) (q : Ptr) (xs : Cells)
      → length xs < fuel
      → IsChain m.cell q xs
      → position_from fuel x n (head_ptr xs) m ≡ some (position_of x n xs, m)
  unfolding position_from position_of
  position_from-chain zero n q xs lt c = absurd (omega arith)
  position_from-chain (suc fuel) n q [] lt c = refl
  position_from-chain (suc fuel) n q ((p, v) ∷ xs) lt c =
      ground (arith, c.1, position_from-chain fuel (n + 1) p xs (omega arith) c.3)

  count_from-chain :
      (fuel n k : ℕ) (q : Ptr) (xs : Cells)
      → length xs < fuel
      → IsChain m.cell q xs
      → n + occurrences x xs ≡ k
      → count_from fuel x n (head_ptr xs) m ≡ some (k, m)
  unfolding count_from occurrences
  count_from-chain zero n k q xs lt c e = absurd (omega arith)
  count_from-chain (suc fuel) n k q [] lt c e = ground arith
  count_from-chain (suc fuel) n k q ((p, v) ∷ xs) lt c e = ground (
    arith,
    c.1,
    count_from-chain fuel (if v == x then n + 1 else n) k p xs (omega arith) c.3 (ground arith),
  )

-- In a list, `xanList_find` ends with the first item that holds the pointer, or NULL, and changes
-- nothing.
pub find-address_of :
    (m : Memory) (l : XanList) (xs : Cells) (x : ℕ)
    → IsList m l xs
    → find l x m ≡ some (address_of x xs, m)
unfolding find
find-address_of m l xs x v =
    rw v.first (find_from-chain m x (l.len + 1) null xs (omega (arith, v.len)) v.chain)

-- In a list, `xanList_getPositionNumberFromElement` ends with the position of the first item that
-- holds the pointer, or -1, and changes nothing.
pub get_position_number_from_element-position_of :
    (m : Memory) (l : XanList) (xs : Cells) (x : ℕ)
    → IsList m l xs
    → get_position_number_from_element l x m ≡ some (position_of x 0 xs, m)
unfolding get_position_number_from_element
get_position_number_from_element-position_of m l xs x v =
    rw v.first (position_from-chain m x (l.len + 1) 0 null xs (omega (arith, v.len)) v.chain)

-- In a list, `xanList_equalsInstancesNumber` ends with the number of items that hold the pointer, and
-- changes nothing.
pub equals_instances_number-occurrences :
    (m : Memory) (l : XanList) (xs : Cells) (x : ℕ)
    → IsList m l xs
    → equals_instances_number l x m ≡ some (occurrences x xs, m)
unfolding equals_instances_number
equals_instances_number-occurrences m l xs x v = rw v.first (
    count_from-chain m x (l.len + 1) 0 (occurrences x xs) null xs (omega (arith, v.len)) v.chain
      (omega arith))
