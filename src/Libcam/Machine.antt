-- ===== src/Libcam/Machine.antt =====
-- Words of 64 bits, unsigned and in two's complement, and the decimal numbers in the trace files.
use cam_alias_checker.Prelude.{
  ℕ, zero, suc, ◌+◌, ◌-◌, ◌*◌, ◌%◌, ◌^◌, ◌<◌, ◌≡◌, min, Bool, leb, ltb, if◌then◌else◌, arith,
}

abbrev pub word : ℕ
word = 2 ^ 64

abbrev pub sub_word : ℕ → ℕ → ℕ
sub_word a b = (a + (word - b)) % word

abbrev pub is_negative : ℕ → Bool
is_negative a = leb (2 ^ 63) a

-- The library's `abs`, with the least word for itself.
abbrev pub magnitude : ℕ → ℕ
magnitude a = if is_negative a then word - a else a

-- A number in a file, with its sign.
pub data Number : Type 0 where
  plus : ℕ → Number
  minus : ℕ → Number

-- `PRIuPTR`, `PRIu64` and `%zu`
abbrev pub print_unsigned : ℕ → Number
print_unsigned a = plus a

-- `PRIdPTR`
abbrev pub print_signed : ℕ → Number
print_signed a = if is_negative a then minus (word - a) else plus a

-- `strtoull`: a number that is too large gives the largest word, and a sign negates the word.
abbrev pub strtoull : Number → ℕ
strtoull (plus n) = min n (word - 1)
strtoull (minus n) = if ltb n word then sub_word 0 n else word - 1

-- `strtoll`: a number out of range gives the nearest in range.
abbrev pub strtoll : Number → ℕ
strtoll (plus n) = min n (2 ^ 63 - 1)
strtoll (minus n) = (word - min n (2 ^ 63)) % word

pub strtoll-print_signed : (a : ℕ) → a < word → strtoll (print_signed a) ≡ a
strtoll-print_signed a lt = ground arith

pub strtoull-print_unsigned : (a : ℕ) → a < word → strtoull (print_unsigned a) ≡ a
strtoull-print_unsigned a lt = omega arith

pub sub_word-add : (u v : ℕ) → (sub_word u (v % word) + v) % word ≡ u % word
sub_word-add u v = omega arith

pub mul-congruent : (a m n : ℕ) → m % word ≡ n % word → (a * m) % word ≡ (a * n) % word
mul-congruent zero m n e = omega arith
mul-congruent (suc a) m n e = omega (arith, e, mul-congruent a m n e)

pub add-congruent :
    (k l m n : ℕ) → k % word ≡ l % word → m % word ≡ n % word → (k + m) % word ≡ (l + n) % word
add-congruent k l m n e f = omega arith
