-- ===== src/Xanlib/Bitset/Update.antt =====
-- `xanBitSet_setBit` and `_clearBit`: what they do to the positions of a sound set.
use Prim.Native.Nat.{max}
use cam_alias_checker.Prelude
use cam_alias_checker.Prelude.{
  ℕ, zero, suc, ◌+◌, ◌-◌, ◌*◌, ◌/◌, ◌%◌, ◌^◌, ◌<◌, ◌≤◌, min, ◌≡◌, refl, ap, Bool, true, false, not,
  ◌&&◌, ◌||◌, Option, none, some, [], ◌∷◌, ltb, leb, ◌==◌, if◌then◌else◌, ◌>>=◌, arith,
  length-replicate, length-set, length-map, Bool-cases, inl, inr, sym, ◌∙◌, lt→ltb, subst,
  replicate,
}
use native.Mathlib.Nat.{mod-eq_of_lt}
use cam_alias_checker.Xanlib.Bitset.Word.{
  word_bits, mask, word_and, word_or, word_not, length-word_or, length-word_and, length-mask,
}
use cam_alias_checker.Xanlib.Bitset.Words.{Words, word_at, AllWords, AllWords-set, length-word_at}
use cam_alias_checker.Xanlib.Bitset.Ops.{
  Bitset, size_mod, set_digit, clear_digit, expand_past, set_bit, clear_bit, is_bit_set,
}
use cam_alias_checker.Xanlib.Bitset.Valid.{raw, max_length, raw-set_digit, raw-clear_digit}
use cam_alias_checker.Xanlib.Bitset.Sound.{is_bit_set-raw, IsSound, Expanded, expand_lem}

-- what a function does to the positions of a set
pub record Becomes (t : Bitset) (mem : ℕ → Bool) : Type 0 where
  pub sound : IsSound t
  pub members : (q : ℕ) → is_bit_set t q ≡ mem q

pub Becomes-raw :
    (t : Bitset) (mem : ℕ → Bool) → IsSound t → ((q : ℕ) → raw t.words q ≡ mem q) → Becomes t mem
Becomes-raw t mem v h = record { sound = v; members = λ q. is_bit_set-raw t q v.clean ∙ h q }

pub expand_past_lem :
    (s : Bitset) (p : ℕ)
    → IsSound s
    → p + 1 < max_length
    → (t : Bitset) × (expand_past s p ≡ some t) × Expanded s (max s.length (p + 1)) t
unfolding expand_past
expand_past_lem s p v small = elim (Bool-cases (leb s.length p)) [
  | inl e ↦
      let (t, et, x) = expand_lem s (p + 1) v (ground arith) small in
      (
        t,
        rw (e, mod-eq_of_lt (let lt : p + 1 < size_mod = omega arith in lt)) et,
        subst (λ n. Expanded s n t) (ground arith) x,
      )
  | inr e ↦ (s, rw e, record { sound = v; longer = ground arith; same = λ q. refl })
]

-- Other words in the same block make the set sound, if they are clean.
pub with_words :
    (t : Bitset) (d : Words) (mem : ℕ → Bool)
    → IsSound t
    → AllWords d
    → Prelude.length d ≡ Prelude.length t.words
    → ((q : ℕ) → raw d q ≡ mem q)
    → ((q : ℕ) → t.length ≤ q → mem q ≡ false)
    → Becomes (record t { words = d }) mem
with_words t d mem v a l h c =
    Becomes-raw (record t { words = d }) mem
      (record {
        valid = record {
          words = a;
          allocated = l ∙ v.valid.allocated;
          enough = v.valid.enough;
          small = v.valid.small;
        };
        clean = λ q b. h q ∙ c q b;
      })
      h

in_block : (t : Bitset) (p : ℕ) → IsSound t → p < t.length → p / word_bits < Prelude.length t.words
in_block t p v h = omega (arith, v.valid.allocated, v.valid.enough, v.valid.small)

pub set_digit-Becomes :
    (t : Bitset) (p : ℕ)
    → IsSound t
    → p < t.length
    → Becomes (record t { words = set_digit t.words p }) (λ q. p == q || raw t.words q)
unfolding set_digit
set_digit-Becomes t p v h =
    let i = p / word_bits in
    let b = in_block t p v h in
    let w = word_at t.words i in
    let m = length-mask (p % word_bits) (omega arith) in
    let lw = length-word_at t.words i v.valid.words b in
    with_words t (set_digit t.words p) (λ q. p == q || raw t.words q) v
      (AllWords-set t.words i (word_or w (mask (p % word_bits))) v.valid.words
        (length-word_or w (mask (p % word_bits)) (lw ∙ sym m) ∙ lw))
      (length-set t.words i (word_or w (mask (p % word_bits)))) (λ q. raw-set_digit t.words p q b)
      (λ q le. ground (arith, v.clean q le))

clear_digit-Becomes :
    (t : Bitset) (p : ℕ)
    → IsSound t
    → p < t.length
    → Becomes (record t { words = clear_digit t.words p }) (λ q. not (p == q) && raw t.words q)
unfolding clear_digit
clear_digit-Becomes t p v h =
    let i = p / word_bits in
    let b = in_block t p v h in
    let w = word_at t.words i in
    let n = word_not (mask (p % word_bits)) in
    let m = length-map (mask (p % word_bits)) not ∙ length-mask (p % word_bits) (omega arith) in
    let lw = length-word_at t.words i v.valid.words b in
    with_words t (clear_digit t.words p) (λ q. not (p == q) && raw t.words q) v
      (AllWords-set t.words i (word_and w n) v.valid.words (length-word_and w n (lw ∙ sym m) ∙ lw))
      (length-set t.words i (word_and w n)) (λ q. raw-clear_digit t.words p q b)
      (λ q le. ground (arith, v.clean q le))

-- `xanBitSet_setBit` adds one position, at whatever place: the set grows where it is too short.
pub set_bit-Becomes :
    (s : Bitset) (p : ℕ)
    → IsSound s
    → p + 1 < max_length
    → (t : Bitset) × (set_bit s p ≡ some t)
      × Becomes t (λ q. p == q || is_bit_set s q)
      × (t.length ≡ max s.length (p + 1))
unfolding set_bit
set_bit-Becomes s p v small =
    let (t, et, x) = expand_past_lem s p v small in
    let b = set_digit-Becomes t p x.sound (omega (arith, x.longer)) in
    (
      record t { words = set_digit t.words p },
      rw et,
      record {
        sound = b.sound;
        members = λ q. b.members q ∙ ground (arith, x.same q, is_bit_set-raw s q v.clean);
      },
      x.longer,
    )

-- `xanBitSet_clearBit` takes one position away, and leaves a set that is too short alone.
pub clear_bit-Becomes :
    (s : Bitset) (p : ℕ)
    → IsSound s
    → Becomes (clear_bit s p) (λ q. not (p == q) && is_bit_set s q)
      × ((clear_bit s p).length ≡ s.length)
unfolding clear_bit
clear_bit-Becomes s p v = elim (Bool-cases (ltb p s.length)) [
  | inl e ↦
      let b = clear_digit-Becomes s p v (ground arith) in
      rw e (
        record {
          sound = b.sound;
          members = λ q. b.members q ∙ ground (arith, is_bit_set-raw s q v.clean);
        },
        refl,
      )
  | inr e ↦ rw e (record { sound = v; members = λ q. ground arith }, refl)
]
