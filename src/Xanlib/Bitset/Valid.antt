-- ===== src/Xanlib/Bitset/Valid.antt =====
-- The representation invariant of a bitset.
use cam_alias_checker.Prelude.{
  ℕ, zero, suc, ◌+◌, ◌-◌, ◌*◌, ◌/◌, ◌%◌, ◌^◌, ◌<◌, ◌≤◌, min, ◌≡◌, refl, ap, Bool, true, false, not,
  ◌&&◌, ◌||◌, Option, none, some, [], ◌∷◌, ltb, leb, ◌==◌, if◌then◌else◌, ◌>>=◌, arith,
  length-replicate, length-set, Bool-cases, inl, inr, sym, ◌∙◌,
}
use cam_alias_checker.Prelude
use cam_alias_checker.Xanlib.Bitset.Word.{
  Word, word_bits, zero_word, mask, word_and, word_or, word_not, bit, non_zero-and_mask, bit-mask,
  bit-word_and, bit-word_or, bit-word_not, bit-replicate-false, length-mask,
}
use cam_alias_checker.Xanlib.Bitset.Words.{
  Words, word_at, combine, fill, AllWords, word_at-combine, word_at-fill, word_at-set,
  word_at-replicate,
}
use cam_alias_checker.Xanlib.Bitset.Ops.{
  Bitset, words_necessary, capacity_necessary, digit, zeroed, set_digit, clear_digit,
}

-- the digit that `digit` tests
abbrev pub raw : Words → ℕ → Bool
raw d p = bit (word_at d (p / word_bits)) (p % word_bits)

pub digit_lem : (d : Words) (p : ℕ) → digit d p ≡ raw d p
unfolding digit
digit_lem d p = non_zero-and_mask (word_at d (p / word_bits)) (p % word_bits)

-- a bound far above what can be allocated, under which no `size_t` wraps
abbrev pub max_length : ℕ
max_length = 2 ^ 60

pub record IsValid (s : Bitset) : Type 0 where
  pub words : AllWords s.words
  pub allocated : Prelude.length s.words ≡ s.capacity
  pub enough : words_necessary s.length ≤ s.capacity
  pub small : s.length < max_length

-- No digit behind the length is set.
abbrev pub IsClean : Bitset → Type 0
IsClean s = (p : ℕ) → s.length ≤ p → raw s.words p ≡ false

pub raw-zeroed : (n p : ℕ) → raw (zeroed n) p ≡ false
raw-zeroed n p = ground (
  arith,
  word_at-replicate n zero_word (p / word_bits),
  bit-replicate-false word_bits (p % word_bits),
)

pub raw-set_digit :
    (d : Words) (p q : ℕ)
    → p / word_bits < Prelude.length d
    → raw (set_digit d p) q ≡ (p == q || raw d q)
unfolding set_digit
raw-set_digit d p q h = ground (
  arith,
  word_at-set d (p / word_bits) (word_or (word_at d (p / word_bits)) (mask (p % word_bits)))
      (q / word_bits) h,
  bit-word_or (word_at d (p / word_bits)) (mask (p % word_bits)) (q % word_bits),
  bit-mask (p % word_bits) (q % word_bits),
)

pub raw-clear_digit :
    (d : Words) (p q : ℕ)
    → p / word_bits < Prelude.length d
    → raw (clear_digit d p) q ≡ (not (p == q) && raw d q)
unfolding clear_digit
raw-clear_digit d p q h = ground (
  arith,
  word_at-set d (p / word_bits)
      (word_and (word_at d (p / word_bits)) (word_not (mask (p % word_bits)))) (q / word_bits) h,
  bit-word_and (word_at d (p / word_bits)) (word_not (mask (p % word_bits))) (q % word_bits),
  bit-word_not (mask (p % word_bits)) (q % word_bits)
      (omega (arith, length-mask (p % word_bits) (omega arith))),
  bit-mask (p % word_bits) (q % word_bits),
)

pub raw-combine :
    (n : ℕ) (f : Word → Word → Word) (d s : Words) (p : ℕ)
    → n ≤ Prelude.length d
    → n ≤ Prelude.length s
    → raw (combine n f d s) p ≡ (
        if ltb (p / word_bits) n
        then bit (f (word_at d (p / word_bits)) (word_at s (p / word_bits))) (p % word_bits)
        else raw d p)
raw-combine n f d s p h k = ground (arith, word_at-combine n f d s (p / word_bits) h k)

pub raw-fill :
    (start n : ℕ) (w : Word) (d : Words) (p : ℕ)
    → start + n ≤ Prelude.length d
    → raw (fill start n w d) p ≡ (
        if leb start (p / word_bits) && ltb (p / word_bits) (start + n)
        then bit w (p % word_bits)
        else raw d p)
raw-fill start n w d p h = ground (arith, word_at-fill start n w d (p / word_bits) h)

-- The positions of the first `words_necessary n` words are those below `n` and some behind it.
pub in_words : (n p : ℕ) → n < max_length → p < n → p / word_bits < words_necessary n
in_words n p h k = omega arith

pub behind_words : (n p : ℕ) → n < max_length → words_necessary n ≤ p / word_bits → n ≤ p
behind_words n p h k = omega arith

pub words_mono : (n m : ℕ) → m < max_length → n ≤ m → words_necessary n ≤ words_necessary m
words_mono n m h k = omega arith

pub capacity_enough : (n : ℕ) → n < max_length → words_necessary n ≤ capacity_necessary n
capacity_enough n h = omega arith
