-- ===== src/Xanlib/Bitset/Algebra.antt =====
-- `xanBitSet_union`, `_intersect` and `_subtract` on the sets of positions.
use Prim.Native.Nat.{max}
use native.Mathlib.Decide.{dec_le}
use cam_alias_checker.Prelude.{
  subst, ℕ, ◌-◌, ◌/◌, ◌%◌, ◌≤◌, min, ◌≡◌, refl, false, not, ◌&&◌, ◌||◌, some, ltb, if◌then◌else◌,
  arith, ◌∙◌, length, sym, length-map, Bool-cases, inl, inr, ◌⊎◌,
}
use cam_alias_checker.Xanlib.Bitset.Word.{
  Word, word_bits, zero_word, bit-replicate-false, word_and, word_or, word_not, bit-word_and,
  bit-word_or, bit-word_not, length-word_and, length-word_or,
}
use cam_alias_checker.Xanlib.Bitset.Words.{
  Words, word_at, combine, fill, AllWords-fill, AllWords-combine, length-fill, length-combine,
  length-word_at,
}
use cam_alias_checker.Xanlib.Bitset.Ops.{
  Bitset, words_necessary, expand_to, union, intersect, subtract, is_bit_set,
}
use cam_alias_checker.Xanlib.Bitset.Valid.{raw, raw-fill, raw-combine, words_mono, behind_words}
use cam_alias_checker.Xanlib.Bitset.Sound.{IsSound, Expanded, is_bit_set-raw, expand_lem}
use cam_alias_checker.Xanlib.Bitset.Update.{Becomes, with_words}

-- The blocks of two sound sets hold the words of the shorter one.
pub in_blocks :
    (a b : Bitset)
    → IsSound a
    → IsSound b
    → a.length ≤ b.length
    → (words_necessary a.length ≤ length a.words) × (words_necessary a.length ≤ length b.words)
in_blocks a b v w h = (
  omega (arith, v.valid.allocated, v.valid.enough),
  omega (arith, w.valid.allocated, w.valid.enough, words_mono a.length b.length w.valid.small h),
)

pub expand_to_lem :
    (dest src : Bitset)
    → IsSound dest
    → IsSound src
    → (t : Bitset) × (expand_to dest src ≡ some t) × Expanded dest (max dest.length src.length) t
unfolding expand_to
expand_to_lem dest src v w = elim (Bool-cases (ltb dest.length src.length)) [
  | inl e ↦
      let (t, et, x) = expand_lem dest src.length v (ground arith) w.valid.small in
      (t, rw e et, subst (λ n. Expanded dest n t) (ground arith) x)
  | inr e ↦ (dest, rw e, record { sound = v; longer = ground arith; same = λ q. refl })
]

-- `xanBitSet_union`: `dest` gets the positions of both.
pub union-Becomes :
    (dest src : Bitset)
    → IsSound dest
    → IsSound src
    → (t : Bitset) × (union dest src ≡ some t)
      × Becomes t (λ q. is_bit_set dest q || is_bit_set src q)
      × (t.length ≡ max dest.length src.length)
unfolding union
union-Becomes dest src v w =
    let (t, et, x) = expand_to_lem dest src v w in
    let n = words_necessary src.length in
    let k = in_blocks src t w x.sound (omega (arith, x.longer)) in
    (
      record t { words = combine n word_or t.words src.words },
      rw et,
      with_words t (combine n word_or t.words src.words)
          (λ q. is_bit_set dest q || is_bit_set src q) x.sound
          (AllWords-combine n word_or t.words src.words x.sound.valid.words w.valid.words
            (λ a b la lb. length-word_or a b (la ∙ sym lb) ∙ la))
          (length-combine n word_or t.words src.words)
          (λ q. ground (
            arith,
            raw-combine n word_or t.words src.words q k.1 k.0,
            bit-word_or (word_at t.words (q / word_bits)) (word_at src.words (q / word_bits))
                (q % word_bits),
            x.same q,
            is_bit_set-raw dest q v.clean,
            is_bit_set-raw src q w.clean,
            w.clean q,
            behind_words src.length q w.valid.small,
          ))
          (λ q le. ground (arith, x.longer)),
      x.longer,
    )

module _ (dest src : Bitset) (v : IsSound dest) (w : IsSound src) (q : ℕ) where
  abbrev shared : ℕ
  shared = min (words_necessary src.length) (words_necessary dest.length)

  abbrev both : Words
  both = combine shared word_and dest.words src.words

  raw-both : raw both q ≡ (
      if ltb (q / word_bits) shared then raw dest.words q && raw src.words q else raw dest.words q)
  raw-both = ground (
    arith,
    raw-combine shared word_and dest.words src.words q
        (omega (arith, v.valid.allocated, v.valid.enough))
        (omega (arith, w.valid.allocated, w.valid.enough)),
    bit-word_and (word_at dest.words (q / word_bits)) (word_at src.words (q / word_bits))
        (q % word_bits),
  )

  -- Behind the shared words one of the two sets has no position.
  behind_shared :
      shared ≤ q / word_bits
      → (words_necessary dest.length ≤ q / word_bits → raw dest.words q ≡ false)
        × ((raw dest.words q ≡ false) ⊎ (raw src.words q ≡ false))
  behind_shared h = (
    (λ k. v.clean q (behind_words dest.length q v.valid.small k)),
    elim (dec_le (words_necessary dest.length) (q / word_bits)) [
      | yes k ↦ inl (v.clean q (behind_words dest.length q v.valid.small k))
      | no k ↦ inr (w.clean q (behind_words src.length q w.valid.small (omega arith)))
    ],
  )

  raw-intersect :
      raw (fill shared (words_necessary dest.length - shared) zero_word both) q
      ≡ (is_bit_set dest q && is_bit_set src q)
  raw-intersect =
      rw (is_bit_set-raw dest q v.clean, is_bit_set-raw src q w.clean)
        (ground (
          arith,
          raw-fill shared (words_necessary dest.length - shared) zero_word both q (
              omega (
                arith,
                v.valid.allocated,
                v.valid.enough,
                length-combine shared word_and dest.words src.words,
              )),
          bit-replicate-false word_bits (q % word_bits),
          raw-both,
          behind_shared,
        ))

-- `xanBitSet_intersect`: `dest` keeps the positions that `src` has too.
pub intersect-Becomes :
    (dest src : Bitset)
    → IsSound dest
    → IsSound src
    → Becomes (intersect dest src) (λ q. is_bit_set dest q && is_bit_set src q)
      × ((intersect dest src).length ≡ dest.length)
unfolding intersect
intersect-Becomes dest src v w =
    let m = words_necessary dest.length in
    let n = min (words_necessary src.length) m in
    let both = combine n word_and dest.words src.words in
    let d : n ≤ length dest.words = omega (arith, v.valid.allocated, v.valid.enough) in
    let s : n ≤ length src.words = omega (arith, w.valid.allocated, w.valid.enough) in
    let l = length-combine n word_and dest.words src.words in
    (
      with_words dest (fill n (m - n) zero_word both) (λ q. is_bit_set dest q && is_bit_set src q) v
          (AllWords-fill n (m - n) zero_word both
            (AllWords-combine n word_and dest.words src.words v.valid.words w.valid.words
              (λ a b la lb. length-word_and a b (la ∙ sym lb) ∙ la))
            refl)
          (length-fill n (m - n) zero_word both ∙ l) (λ q. raw-intersect dest src v w q)
          (λ q le. ground arith),
      refl,
    )

-- `xanBitSet_subtract`: the first set keeps the positions that the second one has not.
pub subtract-Becomes :
    (a b : Bitset)
    → IsSound a
    → IsSound b
    → Becomes (subtract a b) (λ q. is_bit_set a q && not (is_bit_set b q))
      × ((subtract a b).length ≡ a.length)
unfolding subtract
subtract-Becomes a b v w =
    let n = min (words_necessary b.length) (words_necessary a.length) in
    let minus = λ (x y : Word). word_and x (word_not y) in
    let d : n ≤ length a.words = omega (arith, v.valid.allocated, v.valid.enough) in
    let s : n ≤ length b.words = omega (arith, w.valid.allocated, w.valid.enough) in
    (
      with_words a (combine n minus a.words b.words) (λ q. is_bit_set a q && not (is_bit_set b q)) v
          (AllWords-combine n minus a.words b.words v.valid.words w.valid.words
            (λ x y lx ly. length-word_and x (word_not y) (lx ∙ sym (length-map y not ∙ ly)) ∙ lx))
          (length-combine n minus a.words b.words)
          (λ q. ground (
            arith,
            raw-combine n minus a.words b.words q d s,
            bit-word_and (word_at a.words (q / word_bits))
                (word_not (word_at b.words (q / word_bits))) (q % word_bits),
            bit-word_not (word_at b.words (q / word_bits)) (q % word_bits),
            length-word_at b.words (q / word_bits) w.valid.words,
            is_bit_set-raw a q v.clean,
            is_bit_set-raw b q w.clean,
            v.clean q,
            w.clean q,
            behind_words a.length q v.valid.small,
            behind_words b.length q w.valid.small,
          ))
          (λ q le. ground arith),
      refl,
    )
