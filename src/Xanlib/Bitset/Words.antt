-- ===== src/Xanlib/Bitset/Words.antt =====
-- Arrays of words: the loops of xanlib/src/xanbitset.c over `set->data`, and a single digit of it.
-- A read or a write out of range is undefined in C; here it reads the empty word or changes nothing.
use cam_alias_checker.Prelude.{
  ℕ, zero, suc, ◌+◌, ◌<◌, ◌≤◌, ◌≡◌, refl, Bool, true, false, ◌&&◌, List, [], ◌∷◌, arith, ltb, leb,
  ◌==◌, if◌then◌else◌, length, get_or, set, replicate, ap,
}
use cam_alias_checker.Xanlib.Bitset.Word.{Word, word_bits, eq_word, non_zero}

abbrev pub Words : Type 0
Words = List Word

abbrev pub word_at : Words → ℕ → Word
word_at d i = get_or d i []

-- `for (i = 0; i < n; ++i) d[i] = f(d[i], s[i]);`
unfoldable pub combine : ℕ → (Word → Word → Word) → Words → Words → Words
combine zero f d s = d
combine (suc n) f [] s = []
combine (suc n) f (x ∷ d) [] = x ∷ d
combine (suc n) f (x ∷ d) (y ∷ s) = f x y ∷ combine n f d s

-- `for (i = start; i < start + n; ++i) d[i] = w;`
unfoldable pub fill : (start n : ℕ) → Word → Words → Words
fill start n w [] = []
fill zero zero w (x ∷ d) = x ∷ d
fill zero (suc n) w (x ∷ d) = w ∷ fill zero n w d
fill (suc start) n w (x ∷ d) = x ∷ fill start n w d

-- `memcmp(a, b, n * sizeof(size_t)) == 0`
unfoldable pub same_words : ℕ → Words → Words → Bool
same_words zero a b = true
same_words (suc n) [] b = false
same_words (suc n) (x ∷ a) [] = false
same_words (suc n) (x ∷ a) (y ∷ b) = if eq_word x y then same_words n a b else false

-- `for (i = start; i < start + n; ++i) if (d[i] != 0) return false;`
unfoldable pub all_zero : (start n : ℕ) → Words → Bool
all_zero start n [] = true
all_zero zero zero (x ∷ d) = true
all_zero zero (suc n) (x ∷ d) = if non_zero x then false else all_zero zero n d
all_zero (suc start) n (x ∷ d) = all_zero start n d

-- every word has 64 digits
abbrev pub AllWords : Words → Type 0
AllWords [] = Unit
AllWords (x ∷ d) = (length x ≡ word_bits) × AllWords d

pub word_at-combine :
    (n : ℕ) (f : Word → Word → Word) (d s : Words) (i : ℕ)
    → n ≤ length d
    → n ≤ length s
    → word_at (combine n f d s) i ≡ (if ltb i n then f (word_at d i) (word_at s i) else word_at d i)
unfolding combine
word_at-combine zero f d s i h k = ground arith
word_at-combine (suc n) f [] s i h k = absurd (omega arith)
word_at-combine (suc n) f (x ∷ d) [] i h k = absurd (omega arith)
word_at-combine (suc n) f (x ∷ d) (y ∷ s) zero h k = ground arith
word_at-combine (suc n) f (x ∷ d) (y ∷ s) (suc i) h k = ground (arith, word_at-combine n f d s i)

pub word_at-fill :
    (start n : ℕ) (w : Word) (d : Words) (i : ℕ)
    → start + n ≤ length d
    → word_at (fill start n w d) i ≡ (if leb start i && ltb i (start + n) then w else word_at d i)
unfolding fill
word_at-fill start n w [] i h = ground arith
word_at-fill zero zero w (x ∷ d) i h = ground arith
word_at-fill zero (suc n) w (x ∷ d) zero h = ground arith
word_at-fill zero (suc n) w (x ∷ d) (suc i) h = ground (arith, word_at-fill zero n w d i)
word_at-fill (suc start) n w (x ∷ d) zero h = ground arith
word_at-fill (suc start) n w (x ∷ d) (suc i) h = ground (arith, word_at-fill start n w d i)

pub word_at-set :
    (d : Words) (j : ℕ) (w : Word) (i : ℕ)
    → j < length d
    → word_at (set d j w) i ≡ (if j == i then w else word_at d i)
word_at-set [] j w i h = absurd (omega arith)
word_at-set (x ∷ d) zero w zero h = ground arith
word_at-set (x ∷ d) zero w (suc i) h = ground arith
word_at-set (x ∷ d) (suc j) w zero h = ground arith
word_at-set (x ∷ d) (suc j) w (suc i) h = ground (arith, word_at-set d j w i)

pub word_at-replicate :
    (n : ℕ) (w : Word) (i : ℕ) → word_at (replicate n w) i ≡ (if ltb i n then w else [])
word_at-replicate zero w i = ground arith
word_at-replicate (suc n) w zero = ground arith
word_at-replicate (suc n) w (suc i) = ground (arith, word_at-replicate n w i)

pub length-combine :
    (n : ℕ) (f : Word → Word → Word) (d s : Words) → length (combine n f d s) ≡ length d
unfolding combine
length-combine zero f d s = refl
length-combine (suc n) f [] s = refl
length-combine (suc n) f (x ∷ d) [] = refl
length-combine (suc n) f (x ∷ d) (y ∷ s) = ap suc (length-combine n f d s)

pub length-fill : (start n : ℕ) (w : Word) (d : Words) → length (fill start n w d) ≡ length d
unfolding fill
length-fill start n w [] = refl
length-fill zero zero w (x ∷ d) = refl
length-fill zero (suc n) w (x ∷ d) = ap suc (length-fill zero n w d)
length-fill (suc start) n w (x ∷ d) = ap suc (length-fill start n w d)

pub length-word_at :
    (d : Words) (i : ℕ) → AllWords d → i < length d → length (word_at d i) ≡ word_bits
length-word_at [] i a h = absurd (omega arith)
length-word_at (x ∷ d) zero a h = a.0
length-word_at (x ∷ d) (suc i) a h = length-word_at d i a.1 (omega arith)

pub AllWords-replicate : (n : ℕ) (w : Word) → length w ≡ word_bits → AllWords (replicate n w)
AllWords-replicate zero w h = tt
AllWords-replicate (suc n) w h = (h, AllWords-replicate n w h)

pub AllWords-set :
    (d : Words) (i : ℕ) (w : Word) → AllWords d → length w ≡ word_bits → AllWords (set d i w)
AllWords-set [] i w a h = tt
AllWords-set (x ∷ d) zero w a h = (h, a.1)
AllWords-set (x ∷ d) (suc i) w a h = (a.0, AllWords-set d i w a.1 h)

pub AllWords-fill :
    (start n : ℕ) (w : Word) (d : Words)
    → AllWords d
    → length w ≡ word_bits
    → AllWords (fill start n w d)
unfolding fill
AllWords-fill start n w [] a h = tt
AllWords-fill zero zero w (x ∷ d) a h = a
AllWords-fill zero (suc n) w (x ∷ d) a h = (h, AllWords-fill zero n w d a.1 h)
AllWords-fill (suc start) n w (x ∷ d) a h = (a.0, AllWords-fill start n w d a.1 h)

pub AllWords-combine :
    (n : ℕ) (f : Word → Word → Word) (d s : Words)
    → AllWords d
    → AllWords s
    → ((x y : Word) → length x ≡ word_bits → length y ≡ word_bits → length (f x y) ≡ word_bits)
    → AllWords (combine n f d s)
unfolding combine
AllWords-combine zero f d s a b h = a
AllWords-combine (suc n) f [] s a b h = tt
AllWords-combine (suc n) f (x ∷ d) [] a b h = a
AllWords-combine (suc n) f (x ∷ d) (y ∷ s) a b h =
    (h x y a.0 b.0, AllWords-combine n f d s a.1 b.1 h)
