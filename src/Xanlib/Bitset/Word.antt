-- ===== src/Xanlib/Bitset/Word.antt =====
-- A `size_t` of 64 bits as its binary digits, the lowest first, with the operators that
-- xanlib/src/xanbitset.c uses: all of them work digit by digit.
use cam_alias_checker.Prelude.{
  ℕ, zero, suc, ◌-◌, ◌<◌, ◌≡◌, refl, Bool, true, false, not, ◌&&◌, ◌||◌, List, [], ◌∷◌, ◌++◌, map,
  arith, ◌==◌, length, get_or, replicate, length-append, length-replicate, ap, sym, Bool-cases, inl,
  inr, ◌∙◌,
}

abbrev pub Word : Type 0
Word = List Bool

abbrev pub word_bits : ℕ
word_bits = 64

abbrev pub zero_word : Word
zero_word = replicate word_bits false

-- `~(size_t)0`
abbrev pub ones_word : Word
ones_word = replicate word_bits true

-- `((size_t) 1) << k`, for `k` below 64
unfoldable pub mask : ℕ → Word
mask k = replicate k false ++ true ∷ replicate (word_bits - k - 1) false

-- `&`
unfoldable pub word_and : Word → Word → Word
word_and [] b = []
word_and (x ∷ a) [] = []
word_and (x ∷ a) (y ∷ b) = (x && y) ∷ word_and a b

-- `|`
unfoldable pub word_or : Word → Word → Word
word_or [] b = b
word_or (x ∷ a) [] = x ∷ a
word_or (x ∷ a) (y ∷ b) = (x || y) ∷ word_or a b

-- `~`
abbrev pub word_not : Word → Word
word_not a = map not a

-- `!= 0`
unfoldable pub non_zero : Word → Bool
non_zero [] = false
non_zero (x ∷ a) = x || non_zero a

-- `==`, of words of one length
unfoldable pub eq_word : Word → Word → Bool
eq_word [] [] = true
eq_word [] (y ∷ b) = false
eq_word (x ∷ a) [] = false
eq_word (true ∷ a) (true ∷ b) = eq_word a b
eq_word (false ∷ a) (false ∷ b) = eq_word a b
eq_word (true ∷ a) (false ∷ b) = false
eq_word (false ∷ a) (true ∷ b) = false

abbrev pub bit : Word → ℕ → Bool
bit a k = get_or a k false

pub bit-replicate-false : (n k : ℕ) → bit (replicate n false) k ≡ false
bit-replicate-false zero k = refl
bit-replicate-false (suc n) zero = refl
bit-replicate-false (suc n) (suc k) = bit-replicate-false n k

pub bit-replicate-true : (n k : ℕ) → k < n → bit (replicate n true) k ≡ true
bit-replicate-true zero k h = absurd (omega arith)
bit-replicate-true (suc n) zero h = refl
bit-replicate-true (suc n) (suc k) h = bit-replicate-true n k (omega arith)

bit-one_hot : (k n j : ℕ) → bit (replicate k false ++ true ∷ replicate n false) j ≡ (k == j)
bit-one_hot zero n zero = ground arith
bit-one_hot zero n (suc j) = ground (arith, bit-replicate-false n j)
bit-one_hot (suc k) n zero = ground arith
bit-one_hot (suc k) n (suc j) = ground (arith, bit-one_hot k n j)

pub bit-mask : (k j : ℕ) → bit (mask k) j ≡ (k == j)
unfolding mask
bit-mask k j = bit-one_hot k (word_bits - k - 1) j

pub bit-word_and : (a b : Word) (k : ℕ) → bit (word_and a b) k ≡ (bit a k && bit b k)
unfolding word_and
bit-word_and [] b k = refl
bit-word_and (x ∷ a) [] k = ground arith
bit-word_and (x ∷ a) (y ∷ b) zero = refl
bit-word_and (x ∷ a) (y ∷ b) (suc k) = bit-word_and a b k

pub bit-word_or : (a b : Word) (k : ℕ) → bit (word_or a b) k ≡ (bit a k || bit b k)
unfolding word_or
bit-word_or [] b k = refl
bit-word_or (x ∷ a) [] k = ground arith
bit-word_or (x ∷ a) (y ∷ b) zero = refl
bit-word_or (x ∷ a) (y ∷ b) (suc k) = bit-word_or a b k

pub bit-word_not : (a : Word) (k : ℕ) → k < length a → bit (word_not a) k ≡ not (bit a k)
bit-word_not [] k h = absurd (omega arith)
bit-word_not (x ∷ a) zero h = refl
bit-word_not (x ∷ a) (suc k) h = bit-word_not a k (omega arith)

-- A word is zero exactly when it has no bit.
pub bit_of_non_zero : (a : Word) → non_zero a ≡ true → (k : ℕ) × (k < length a) × (bit a k ≡ true)
unfolding non_zero
bit_of_non_zero [] h = cc
bit_of_non_zero (true ∷ a) h = (0, omega arith, refl)
bit_of_non_zero (false ∷ a) h = let (k, lt, e) = bit_of_non_zero a h in (suc k, omega arith, e)

pub zero_of_not_non_zero : (a : Word) → non_zero a ≡ false → (k : ℕ) → bit a k ≡ false
unfolding non_zero
zero_of_not_non_zero [] h k = refl
zero_of_not_non_zero (true ∷ a) h k = cc
zero_of_not_non_zero (false ∷ a) h zero = refl
zero_of_not_non_zero (false ∷ a) h (suc k) = zero_of_not_non_zero a h k

non_zero_of_zero : (a : Word) → ((k : ℕ) → bit a k ≡ false) → non_zero a ≡ false
unfolding non_zero
non_zero_of_zero [] h = refl
non_zero_of_zero (x ∷ a) h = rw (h 0) (non_zero_of_zero a (λ k. h (suc k)))

-- `(w & MASK(k)) != 0` tests one digit.
pub non_zero-and_mask : (w : Word) (k : ℕ) → non_zero (word_and w (mask k)) ≡ bit w k
non_zero-and_mask w k = elim (Bool-cases (non_zero (word_and w (mask k)))) [
  | inl e ↦
      let (j, _, b) = bit_of_non_zero (word_and w (mask k)) e in
      e ∙ ground (arith, bit-word_and w (mask k) j, bit-mask k j)
  | inr e ↦
      e
      ∙ ground (
        arith,
        zero_of_not_non_zero (word_and w (mask k)) e k,
        bit-word_and w (mask k) k,
        bit-mask k k,
      )
]

pub eq_word_refl : (a : Word) → eq_word a a ≡ true
unfolding eq_word
eq_word_refl [] = refl
eq_word_refl (true ∷ a) = eq_word_refl a
eq_word_refl (false ∷ a) = eq_word_refl a

pub eq_of_eq_word : (a b : Word) → eq_word a b ≡ true → a ≡ b
unfolding eq_word
eq_of_eq_word [] [] h = refl
eq_of_eq_word [] (y ∷ b) h = cc
eq_of_eq_word (x ∷ a) [] h = cc
eq_of_eq_word (true ∷ a) (true ∷ b) h = ap (λ c. true ∷ c) (eq_of_eq_word a b h)
eq_of_eq_word (false ∷ a) (false ∷ b) h = ap (λ c. false ∷ c) (eq_of_eq_word a b h)
eq_of_eq_word (true ∷ a) (false ∷ b) h = cc
eq_of_eq_word (false ∷ a) (true ∷ b) h = cc

-- Words of one length with the same digits are the same word.
pub Word-ext : (a b : Word) → length a ≡ length b → ((k : ℕ) → bit a k ≡ bit b k) → a ≡ b
Word-ext [] [] l h = refl
Word-ext [] (y ∷ b) l h = absurd (omega arith)
Word-ext (x ∷ a) [] l h = absurd (omega arith)
Word-ext (x ∷ a) (y ∷ b) l h =
    rw (h 0) (ap (λ c. y ∷ c) (Word-ext a b (omega arith) (λ k. h (suc k))))

pub length-word_and : (a b : Word) → length a ≡ length b → length (word_and a b) ≡ length a
unfolding word_and
length-word_and [] b l = refl
length-word_and (x ∷ a) [] l = absurd (omega arith)
length-word_and (x ∷ a) (y ∷ b) l = ap suc (length-word_and a b (omega arith))

pub length-word_or : (a b : Word) → length a ≡ length b → length (word_or a b) ≡ length a
unfolding word_or
length-word_or [] b l = sym l
length-word_or (x ∷ a) [] l = refl
length-word_or (x ∷ a) (y ∷ b) l = ap suc (length-word_or a b (omega arith))

pub length-mask : (k : ℕ) → k < word_bits → length (mask k) ≡ word_bits
unfolding mask
length-mask k h = omega (
  arith,
  length-append (replicate k false) (true ∷ replicate (word_bits - k - 1) false),
  length-replicate k false,
  length-replicate (word_bits - k - 1) false,
)
