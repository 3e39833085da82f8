-- ===== src/Xanlib/Bitset/Sound.antt =====
-- Sound bitsets: the block fits the length and has no digit behind it. New and longer sets are sound.
use cam_alias_checker.Prelude.{
  ℕ, ◌<◌, ◌≡◌, refl, false, some, leb, arith, length-replicate, Bool-cases, inl, inr, ◌∙◌, lt→ltb,
}
use cam_alias_checker.Xanlib.Bitset.Word.{zero_word}
use cam_alias_checker.Xanlib.Bitset.Words.{
  Words, combine, AllWords-replicate, AllWords-combine, length-combine,
}
use cam_alias_checker.Xanlib.Bitset.Ops.{
  Bitset, words_necessary, capacity_necessary, zeroed, new, expand, is_bit_set,
}
use cam_alias_checker.Xanlib.Bitset.Valid.{
  raw, digit_lem, max_length, IsValid, IsClean, raw-zeroed, raw-combine, capacity_enough,
}

-- In a clean set the test of the length may be left out.
pub is_bit_set-raw : (s : Bitset) (p : ℕ) → IsClean s → is_bit_set s p ≡ raw s.words p
is_bit_set-raw s p c = ground (arith, digit_lem s.words p, c p)

pub record IsSound (s : Bitset) : Type 0 where
  pub valid : IsValid s
  pub clean : IsClean s

-- A new bitset is sound and empty.
pub new-IsSound :
    (n : ℕ) → n < max_length → IsSound (new n) × ((p : ℕ) → is_bit_set (new n) p ≡ false)
unfolding new
new-IsSound n h = (
  record {
    valid = record {
      words = AllWords-replicate (capacity_necessary n) zero_word refl;
      allocated = length-replicate (capacity_necessary n) zero_word;
      enough = capacity_enough n h;
      small = h;
    };
    clean = λ p _. raw-zeroed (capacity_necessary n) p;
  },
  λ p.
      is_bit_set-raw (new n) p (λ q _. raw-zeroed (capacity_necessary n) q)
      ∙ raw-zeroed (capacity_necessary n) p,
)

pub record Expanded (s : Bitset) (n : ℕ) (t : Bitset) : Type 0 where
  pub sound : IsSound t
  pub longer : t.length ≡ n
  pub same : (p : ℕ) → raw t.words p ≡ raw s.words p

pub raw-new : (n p : ℕ) → raw (new n).words p ≡ false
unfolding new
raw-new n p = raw-zeroed (capacity_necessary n) p

pub length-new : (n : ℕ) → (new n).length ≡ n
unfolding new
length-new n = refl

module _ (s : Bitset) (n : ℕ) (v : IsSound s) (lt : s.length < n) (small : n < max_length) where
  -- the block that `_xanBitSet_expand` copies to
  abbrev moved : Words
  moved = combine (words_necessary s.length) (λ x y. y) (zeroed (capacity_necessary n)) s.words

  raw-moved : (p : ℕ) → raw moved p ≡ raw s.words p
  raw-moved p = ground (
    arith,
    raw-combine (words_necessary s.length) (λ x y. y) (zeroed (capacity_necessary n)) s.words p
        (omega (arith, length-replicate (capacity_necessary n) zero_word))
        (omega (arith, v.valid.allocated, v.valid.enough)),
    raw-zeroed (capacity_necessary n) p,
    v.clean p,
  )

  moved-IsSound : IsSound (record s { words = moved; length = n; capacity = capacity_necessary n })
  moved-IsSound = record {
    valid = record {
      words =
          AllWords-combine (words_necessary s.length) (λ x y. y) (zeroed (capacity_necessary n))
            s.words (AllWords-replicate (capacity_necessary n) zero_word refl) v.valid.words
            (λ x y h k. k);
      allocated =
          length-combine (words_necessary s.length) (λ x y. y) (zeroed (capacity_necessary n))
            s.words
          ∙ length-replicate (capacity_necessary n) zero_word;
      enough = capacity_enough n small;
      small = small;
    };
    clean = λ p h. raw-moved p ∙ v.clean p (omega arith);
  }

-- Expansion keeps the positions, whether the block is large enough or not.
pub expand_lem :
    (s : Bitset) (n : ℕ)
    → IsSound s
    → s.length < n
    → n < max_length
    → (t : Bitset) × (expand s n ≡ some t) × Expanded s n t
unfolding expand
expand_lem s n v lt small = elim (Bool-cases (leb (words_necessary n) s.capacity)) [
  | inl e ↦ (
    record s { length = n },
    rw (lt→ltb s.length n lt, e),
    record {
      sound = record {
        valid = record {
          words = v.valid.words;
          allocated = v.valid.allocated;
          enough = ground arith;
          small = small;
        };
        clean = λ p h. v.clean p (omega arith);
      };
      longer = refl;
      same = λ p. refl;
    },
  )
  | inr e ↦ (
    record s {
      words = combine (words_necessary s.length) (λ x y. y) (zeroed (capacity_necessary n)) s.words;
      length = n;
      capacity = capacity_necessary n;
    },
    rw (lt→ltb s.length n lt, e),
    record { sound = moved-IsSound s n v lt small; longer = refl; same = raw-moved s n v lt small },
  )
]
