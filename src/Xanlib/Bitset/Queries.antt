-- ===== src/Xanlib/Bitset/Queries.antt =====
-- The functions of xanlib/src/xanbitset.c that read bitsets.
use Prim.Native.Nat.{max}
use cam_alias_checker.Prelude.{
  ℕ, zero, suc, ◌+◌, ◌-◌, ◌*◌, ◌/◌, ◌%◌, ◌^◌, min, Bool, true, false, not, ◌&&◌, Option, none, some,
  [], ◌∷◌, ltb, leb, ◌==◌, if◌then◌else◌,
}
use cam_alias_checker.Xanlib.Bitset.Word.{Word, word_bits, ones_word, word_and, non_zero, eq_word}
use cam_alias_checker.Xanlib.Bitset.Words.{Words, word_at, same_words, all_zero}
use cam_alias_checker.Xanlib.Bitset.Ops.{Bitset, size_mod, words_necessary, bit_set}

-- `memcmp` over the shorter set, and zeros behind it in the longer one
unfoldable pub equal_longer : (shorter longer : Bitset) → Bool
unfolding same_words all_zero
equal_longer shorter longer =
    let n = words_necessary shorter.length in
    if same_words n shorter.words longer.words
    then all_zero n (words_necessary longer.length - n) longer.words
    else false

unfoldable pub equal : Bitset → Bitset → Bool
unfolding equal_longer
equal a b =
    if a.length == b.length
    then same_words (words_necessary a.length) a.words b.words
    else if ltb a.length b.length
    then equal_longer a b
    else equal_longer b a

unfoldable pub are_equal : Bitset → Bitset → Bool
unfolding same_words all_zero
are_equal a b =
    let m = words_necessary a.length in
    let n = words_necessary b.length in
    if same_words (min m n) a.words b.words
    then if ltb n m
      then all_zero (min m n) (m - min m n) a.words
      else if ltb m n
      then all_zero (min m n) (n - min m n) b.words
      else true
    else false

unfoldable pub is_empty : Bitset → Bool
unfolding all_zero
is_empty s = all_zero 0 (words_necessary s.length) s.words

unfoldable pub disjoint_words : ℕ → Words → Words → Bool
disjoint_words zero a b = true
disjoint_words (suc n) [] b = true
disjoint_words (suc n) (x ∷ a) [] = true
disjoint_words (suc n) (x ∷ a) (y ∷ b) =
    if non_zero (word_and x y) then false else disjoint_words n a b

unfoldable pub is_intersection_empty : Bitset → Bitset → Bool
unfolding disjoint_words
is_intersection_empty a b =
    disjoint_words (min (words_necessary a.length) (words_necessary b.length)) a.words b.words

-- the first loop of `xanBitSet_isSubSetOf`: `n` rounds from `i` on
unfoldable pub all_in : ℕ → Bitset → Bitset → ℕ → Bool
all_in zero a b i = true
all_in (suc n) a b i = if bit_set a i && not (bit_set b i) then false else all_in n a b (i + 1)

-- its second loop
unfoldable pub none_set : ℕ → Bitset → ℕ → Bool
none_set zero a i = true
none_set (suc n) a i = if bit_set a i then false else none_set n a (i + 1)

unfoldable pub is_subset_of : Bitset → Bitset → Bool
unfolding all_in none_set
is_subset_of a b =
    let n = min a.length b.length in if all_in n a b 0 then none_set (a.length - n) a n else false

-- the loop of `xanBitSet_getCountOfBitsSet` where `sizeof(size_t)` is not 4
unfoldable pub count_from : ℕ → Bitset → ℕ → ℕ → ℕ
count_from zero s i count = count
count_from (suc n) s i count = count_from n s (i + 1) (if bit_set s i then count + 1 else count)

-- an `int` as its bit pattern
abbrev pub to_int : ℕ → ℕ
to_int n = n % 2 ^ 32

unfoldable pub get_count_of_bits_set : Bitset → ℕ
unfolding count_from
get_count_of_bits_set s = to_int (count_from s.length s 0 0)

abbrev pub int_minus_one : ℕ
int_minus_one = 2 ^ 32 - 1

-- the inner loop of a search: `n` rounds from `pos` on
unfoldable pub scan_digits : ℕ → (ℕ → Bool) → ℕ → Option ℕ
scan_digits zero test pos = none
scan_digits (suc n) test pos = if test pos then some pos else scan_digits n test (pos + 1)

-- one round of the outer loop: the positions from `start` to `end` in word `w`
unfoldable pub scan_word :
    (skip : Word → Bool) → (test : ℕ → Bool) → Words → (start end w : ℕ) → Option ℕ
unfolding scan_digits
scan_word skip test d start end w =
    let pos = max (w * word_bits) start in
    let word_end = min (w * word_bits + word_bits - 1) end in
    if skip (word_at d w) then none else scan_digits (word_end + 1 - pos) test pos

-- the outer loop: `n` rounds from word `w` on
unfoldable pub scan_words :
    ℕ → (skip : Word → Bool) → (test : ℕ → Bool) → Words → (start end w : ℕ) → Option ℕ
unfolding scan_word
scan_words zero skip test d start end w = none
scan_words (suc n) skip test d start end w = elim (scan_word skip test d start end w) [
  | some pos ↦ some pos
  | none ↦ scan_words n skip test d start end (w + 1)
]

-- `set->length - 1` wraps for a set of length 0.
abbrev pub last_position : Bitset → ℕ
last_position s = (s.length + size_mod - 1) % size_mod

abbrev pub scan_set : (skip : Word → Bool) → (test : ℕ → Bool) → Bitset → (start end : ℕ) → Option ℕ
scan_set skip test s start end =
    let last = min end (last_position s) in
    scan_words (last / word_bits + 1 - start / word_bits) skip test s.words start last
      (start / word_bits)

unfoldable pub get_first_bit_set_in_range : Bitset → (start end : ℕ) → ℕ
unfolding scan_words
get_first_bit_set_in_range s start end =
    elim (scan_set (λ w. not (non_zero w)) (bit_set s) s start end) [
      | some pos ↦ to_int pos
      | none ↦ int_minus_one
    ]

unfoldable pub get_first_bit_unset_in_range : Bitset → (start end : ℕ) → ℕ
unfolding scan_words eq_word
get_first_bit_unset_in_range s start end =
    elim (scan_set (λ w. eq_word w ones_word) (λ pos. not (bit_set s pos)) s start end) [
      | some pos ↦ to_int pos
      | none ↦ if leb s.length end then to_int s.length else int_minus_one
    ]

abbrev pub get_length : Bitset → ℕ
get_length s = s.length

-- in bytes
abbrev pub get_capacity : Bitset → ℕ
get_capacity s = s.capacity * 8 % size_mod
