-- ===== src/Xanlib/HashTable.antt =====
-- xanlib/src/xantable.c: hash tables with chains. A bucket is the list of its item and of the items
-- chained behind it, and one that is not used is the empty list. Keys and elements are pointers, and
-- NULL is 0. Memory is always given. A failed assertion, a call of `abort` and a read out of bounds
-- have no result.
pub mod Ops
pub mod Walk
pub mod Sync
pub mod Placed
pub mod Store
pub mod Expand
pub mod Insert
pub mod Lookup
pub mod Remove
pub mod Whole
mod Tests
use cam_alias_checker.Prelude.{
  ℕ, ◌+◌, ◌-◌, ◌*◌, ◌/◌, ◌%◌, ◌^◌, Bool, true, false, Option, none, some, List, [], ◌∷◌, length,
  ltb, ◌==◌, if◌then◌else◌, replicate,
}
use Prim.Native.Nat.{bit_or, bit_xor}

-- The functions `hash` and `equals` of a table.
pub record Keys : Type 0 where
  pub hash : ℕ → ℕ
  pub equals : ℕ → ℕ → Bool

-- The arithmetic of the type `float` that the load factor is computed with: `1.f / length`, the sum and
-- the difference, the quotient of two numbers, and the comparison with 0.75.
pub record LoadFactor (F : Type 0) : Type 0 where
  pub zero_load : F
  pub share : (length : ℕ) → F
  pub add : F → F → F
  pub sub : F → F → F
  pub ratio : ℕ → ℕ → F
  pub is_high : F → Bool

pub record XanHashTableItem : Type 0 where
  pub index : ℕ
  pub element_id : ℕ
  pub element : ℕ

abbrev pub Bucket : Type 0
Bucket = List XanHashTableItem

pub record XanHashTable (F : Type 0) : Type 0 where
  pub table : List Bucket
  pub prime_index : ℕ
  pub length : ℕ
  pub size : ℕ
  pub has_fixed_length : Bool
  pub current_load_factor : F
  pub clone : Option (ℕ → ℕ)

abbrev pub primes : List ℕ
primes =
    53 ∷ 97 ∷ 193 ∷ 389 ∷ 769 ∷ 1543 ∷ 3079 ∷ 6151 ∷ 12289 ∷ 24593 ∷ 49157 ∷ 98317 ∷ 196613 ∷ 393241
    ∷ 786433 ∷ 1572869 ∷ 3145739 ∷ 6291469 ∷ 12582917 ∷ 25165843 ∷ 50331653 ∷ 100663319 ∷ 201326611
    ∷ 402653189 ∷ 805306457 ∷ 1610612741 ∷ []

-- `unsigned int`
abbrev pub uint : ℕ
uint = 2 ^ 32

-- `(a >> r) | (a << l)`
abbrev pub rotated : (a r l : ℕ) → ℕ
rotated a r l = bit_or (a / 2 ^ r) (a * 2 ^ l % uint)

-- `_xanHashTableImproveHash` of a hash
unfoldable pub improve : ℕ → ℕ
improve h =
    let a = (h + (uint - 1 - h * 2 ^ 9 % uint)) % uint in
    let b = bit_xor a (rotated a 14 18) in
    let c = (b + b * 2 ^ 4 % uint) % uint in bit_xor c (rotated c 10 22)

-- The first prime that is longer, with its index, `i` and later.
unfoldable pub longer_prime : (ps : List ℕ) (i : ℕ) (length : ℕ) → Option (ℕ × ℕ)
longer_prime [] i n = none
longer_prime (p ∷ ps) i n =
    let rest = longer_prime ps (i + 1) n in if ltb n p then some (i, p) else rest

module _ {F : Type 0} ⦃fl : LoadFactor F⦄ where
  abbrev pub of_prime : (has_fixed_length : Bool) → Option (ℕ × ℕ) → Option (XanHashTable F)
  of_prime fixed none = none
  of_prime fixed (some p) = some record {
    table = replicate p.1 [];
    prime_index = p.0;
    length = p.1;
    size = 0;
    has_fixed_length = fixed;
    current_load_factor = fl.zero_load;
    clone = none;
  }

  -- `none` where no prime is long enough: the code leaves the length uninitialised there.
  unfoldable pub new : (length : ℕ) (has_fixed_length : Bool) → Option (XanHashTable F)
  unfolding longer_prime
  new n fixed = of_prime fixed (longer_prime primes 0 n)

module _ ⦃ks : Keys⦄ where
  unfoldable pub improve_hash : (key : ℕ) → ℕ
  unfolding improve
  improve_hash key = improve (ks.hash key)

module _ {F : Type 0} where
  abbrev pub set_clone_function : XanHashTable F → Option (ℕ → ℕ) → XanHashTable F
  set_clone_function t f = record t { clone = f }

  abbrev pub get_clone_function : XanHashTable F → Option (ℕ → ℕ)
  get_clone_function t = t.clone

  -- `(int) table->size`, for a size below 2 ^ 31
  abbrev pub elements_inside : XanHashTable F → ℕ
  elements_inside t = t.size
