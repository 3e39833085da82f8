-- ===== src/Xanlib/Bitset/Ops.antt =====
-- The functions of xanlib/src/xanbitset.c on a `struct XanBitSet`, which returns changed. `size_t`
-- has 64 bits; `none` is a failed assertion. Memory that is asked for is given.
use cam_alias_checker.Prelude.{
  ℕ, zero, suc, ◌+◌, ◌-◌, ◌/◌, ◌%◌, ◌^◌, min, Bool, false, Option, none, some, ltb, leb,
  if◌then◌else◌, set, replicate, ◌>>=◌,
}
use cam_alias_checker.Xanlib.Bitset.Word.{
  word_bits, zero_word, ones_word, mask, word_and, word_or, word_not, non_zero,
}
use cam_alias_checker.Xanlib.Bitset.Words.{Words, word_at, combine, fill}

-- `data` is the block that the pointer holds, all of its words.
pub record Bitset : Type 0 where
  pub words : Words
  pub length : ℕ
  pub capacity : ℕ

abbrev pub size_mod : ℕ
size_mod = 2 ^ 64

-- WORDS_NECESSARY
abbrev pub words_necessary : ℕ → ℕ
words_necessary n = (n + (word_bits - 1)) % size_mod / word_bits

-- CAPACITY_NECESSARY
abbrev pub capacity_necessary : ℕ → ℕ
capacity_necessary n = words_necessary ((n + n / 2) % size_mod)

-- `calloc`
abbrev pub zeroed : ℕ → Words
zeroed n = replicate n zero_word

unfoldable pub new : ℕ → Bitset
new n = record {
  words = zeroed (capacity_necessary n);
  length = n;
  capacity = capacity_necessary n;
}

-- `_xanBitSet_expand`
unfoldable pub expand : Bitset → ℕ → Option Bitset
unfolding combine
expand s n =
    if ltb s.length n
    then if leb (words_necessary n) s.capacity
      then some (record s { length = n })
      else some (record {
        words =
            combine (words_necessary s.length) (λ x y. y) (zeroed (capacity_necessary n)) s.words;
        length = n;
        capacity = capacity_necessary n;
      })
    else none

unfoldable pub intersect : (dest src : Bitset) → Bitset
unfolding combine fill word_and
intersect dest src =
    let n = min (words_necessary src.length) (words_necessary dest.length) in
    record dest {
      words =
          fill n (words_necessary dest.length - n) zero_word
            (combine n word_and dest.words src.words);
    }

-- `if (src->length > dest->length) _xanBitSet_expand(dest, src->length);`
unfoldable pub expand_to : (dest src : Bitset) → Option Bitset
expand_to dest src = if ltb dest.length src.length then expand dest src.length else some dest

unfoldable pub union : (dest src : Bitset) → Option Bitset
unfolding expand_to combine word_or
union dest src = do
  d ← expand_to dest src
  some (record d { words = combine (words_necessary src.length) word_or d.words src.words })

unfoldable pub copy : (dest src : Bitset) → Option Bitset
unfolding expand_to combine fill
copy dest src = do
  d ← expand_to dest src
  let n = words_necessary src.length
  let copied = combine n (λ x y. y) d.words src.words
  let cleared = fill n (words_necessary d.length - n) zero_word copied
  some (record d { words = if ltb src.length d.length then cleared else copied })

unfoldable pub clone : Bitset → Bitset
unfolding new combine
clone src =
    let dest = new src.length in
    record dest { words = combine (words_necessary src.length) (λ x y. y) dest.words src.words }

unfoldable pub clear_all : Bitset → Bitset
unfolding fill
clear_all s = record s { words = fill 0 (words_necessary s.length) zero_word s.words }

unfoldable pub set_all : Bitset → Bitset
unfolding fill
set_all s = record s { words = fill 0 (words_necessary s.length) ones_word s.words }

unfoldable pub invert_bits : Bitset → Bitset
unfolding combine
invert_bits s = record s {
  words = combine (words_necessary s.length) (λ x y. word_not x) s.words s.words;
}

unfoldable pub subtract : (from_this subtract_this : Bitset) → Bitset
unfolding combine word_and
subtract a b = record a {
  words =
      combine (min (words_necessary b.length) (words_necessary a.length))
        (λ x y. word_and x (word_not y)) a.words b.words;
}

-- `WHOLE_WORD(set, pos) &= ~MASK(pos)`
unfoldable pub clear_digit : Words → ℕ → Words
unfolding word_and mask
clear_digit d pos =
    set d (pos / word_bits)
      (word_and (word_at d (pos / word_bits)) (word_not (mask (pos % word_bits))))

-- `WHOLE_WORD(set, pos) |= MASK(pos)`
unfoldable pub set_digit : Words → ℕ → Words
unfolding word_or mask
set_digit d pos =
    set d (pos / word_bits) (word_or (word_at d (pos / word_bits)) (mask (pos % word_bits)))

unfoldable pub clear_bit : Bitset → ℕ → Bitset
unfolding clear_digit
clear_bit s pos = if ltb pos s.length then record s { words = clear_digit s.words pos } else s

-- `if (pos >= set->length) _xanBitSet_expand(set, pos + 1);`
unfoldable pub expand_past : Bitset → ℕ → Option Bitset
unfolding expand
expand_past s pos = if leb s.length pos then expand s ((pos + 1) % size_mod) else some s

unfoldable pub set_bit : Bitset → ℕ → Option Bitset
unfolding expand_past set_digit
set_bit s pos = do t ← expand_past s pos; some (record t { words = set_digit t.words pos })

-- `n` rounds of the loop of `xanBitSet_setBits`
unfoldable pub set_digits : ℕ → Words → ℕ → Words
unfolding set_digit
set_digits zero d pos = d
set_digits (suc n) d pos = set_digits n (set_digit d pos) (pos + 1)

unfoldable pub set_bits : Bitset → (start end : ℕ) → Option Bitset
unfolding expand_past set_digits
set_bits s start end = do
  t ← expand_past s end
  some (record t { words = set_digits (end + 1 - start) t.words start })

-- the macro's test on a block of words
unfoldable pub digit : Words → ℕ → Bool
unfolding word_and mask non_zero
digit d pos = non_zero (word_and (word_at d (pos / word_bits)) (mask (pos % word_bits)))

-- `is_bit_set`
abbrev pub bit_set : Bitset → ℕ → Bool
bit_set s pos = digit s.words pos

-- `xanBitSet_isBitSet`
abbrev pub is_bit_set : Bitset → ℕ → Bool
is_bit_set s pos = if ltb pos s.length then bit_set s pos else false
