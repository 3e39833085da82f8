-- ===== src/Xanlib/Bitset/Copies.antt =====
-- `xanBitSet_clone` and `_copy` on the sets of positions.
use Prim.Native.Nat.{max}
use native.Mathlib.Decide.{dec_lt}
use cam_alias_checker.Prelude.{
  ℕ, ◌+◌, ◌-◌, ◌/◌, ◌%◌, ◌≤◌, ◌≡◌, refl, false, some, ltb, if◌then◌else◌, arith, ◌∙◌, length, sym,
  Bool-cases, inl, inr,
}
use cam_alias_checker.Xanlib.Bitset.Word.{word_bits, zero_word, bit-replicate-false}
use cam_alias_checker.Xanlib.Bitset.Words.{
  Words, combine, fill, AllWords-fill, AllWords-combine, length-fill, length-combine,
}
use cam_alias_checker.Xanlib.Bitset.Ops.{Bitset, words_necessary, new, copy, clone, is_bit_set}
use cam_alias_checker.Xanlib.Bitset.Valid.{raw, raw-fill, raw-combine, words_mono, behind_words}
use cam_alias_checker.Xanlib.Bitset.Sound.{
  IsSound, is_bit_set-raw, new-IsSound, raw-new, length-new,
}
use cam_alias_checker.Xanlib.Bitset.Update.{Becomes, with_words}
use cam_alias_checker.Xanlib.Bitset.Algebra.{in_blocks, expand_to_lem}

-- `xanBitSet_clone`: a new set with the positions and the length of the old one.
pub clone-Becomes :
    (src : Bitset)
    → IsSound src
    → Becomes (clone src) (is_bit_set src) × ((clone src).length ≡ src.length)
unfolding clone
clone-Becomes src w =
    let n = words_necessary src.length in
    let dest = new src.length in
    let v = (new-IsSound src.length w.valid.small).0 in
    let d : n ≤ length dest.words =
      omega (arith, v.valid.allocated, v.valid.enough, length-new src.length) in
    let s : n ≤ length src.words = omega (arith, w.valid.allocated, w.valid.enough) in
    (
      with_words dest (combine n (λ x y. y) dest.words src.words) (is_bit_set src) v
          (AllWords-combine n (λ x y. y) dest.words src.words v.valid.words w.valid.words
            (λ x y lx ly. ly))
          (length-combine n (λ x y. y) dest.words src.words)
          (λ q. ground (
            arith,
            raw-combine n (λ x y. y) dest.words src.words q d s,
            raw-new src.length q,
            is_bit_set-raw src q w.clean,
            w.clean q,
            behind_words src.length q w.valid.small,
          ))
          (λ q le. ground (arith, length-new src.length)),
      length-new src.length,
    )

copied_part :
    (src t : Bitset) (w : IsSound src) (x : IsSound t) (le : src.length ≤ t.length) (q : ℕ)
    → raw (combine (words_necessary src.length) (λ x y. y) t.words src.words) q ≡ (
        if ltb (q / word_bits) (words_necessary src.length) then raw src.words q else raw t.words q)
copied_part src t w x le q =
    let k = in_blocks src t w x le in
    raw-combine (words_necessary src.length) (λ x y. y) t.words src.words q k.1 k.0

module _ (src t : Bitset) (w : IsSound src) (x : IsSound t) (le : src.length ≤ t.length)
    (q : ℕ) where
  abbrev copied_words : Words
  copied_words = combine (words_necessary src.length) (λ x y. y) t.words src.words

  abbrev rest : ℕ
  rest = words_necessary t.length - words_necessary src.length

  rest_in_block : words_necessary src.length + rest ≤ length copied_words
  rest_in_block = omega (
    arith,
    length-combine (words_necessary src.length) (λ x y. y) t.words src.words,
    x.valid.allocated,
    x.valid.enough,
    words_mono src.length t.length x.valid.small le,
  )

  behind_copied :
      words_necessary src.length ≤ q / word_bits
      → (raw src.words q ≡ false)
        × (raw (fill (words_necessary src.length) rest zero_word copied_words) q ≡ false)
  behind_copied h = (
    w.clean q (behind_words src.length q w.valid.small h),
    raw-fill (words_necessary src.length) rest zero_word copied_words q rest_in_block
        ∙ elim (dec_lt (q / word_bits) (words_necessary t.length)) [
          | yes k ↦ ground (arith, bit-replicate-false word_bits (q % word_bits))
          | no k ↦ ground (
            arith,
            copied_part src t w x le q,
            x.clean q (behind_words t.length q x.valid.small (omega arith)),
          )
        ],
  )

  filled_part :
      raw (fill (words_necessary src.length) rest zero_word copied_words) q ≡ raw src.words q
  filled_part = elim (dec_lt (q / word_bits) (words_necessary src.length)) [
    | yes k ↦
        raw-fill (words_necessary src.length) rest zero_word copied_words q rest_in_block
        ∙ ground (arith, copied_part src t w x le q)
    | no k ↦ let b = behind_copied (omega arith) in b.1 ∙ sym b.0
  ]

-- `xanBitSet_copy`: `dest` gets the positions of `src`, and is at least as long as before.
pub copy-Becomes :
    (dest src : Bitset)
    → IsSound dest
    → IsSound src
    → (t : Bitset) × (copy dest src ≡ some t)
      × Becomes t (is_bit_set src)
      × (t.length ≡ max dest.length src.length)
unfolding copy
copy-Becomes dest src v w =
    let (t, et, x) = expand_to_lem dest src v w in
    let n = words_necessary src.length in
    let m = words_necessary t.length in
    let copied = combine n (λ x y. y) t.words src.words in
    let le : src.length ≤ t.length = omega (arith, x.longer) in
    let k = in_blocks src t w x.sound le in
    let l = length-combine n (λ x y. y) t.words src.words in
    let a =
      AllWords-combine n (λ x y. y) t.words src.words x.sound.valid.words w.valid.words
        (λ x y lx ly. ly) in
    elim (Bool-cases (ltb src.length t.length)) [
      | inl e ↦ (
        record t { words = fill n (m - n) zero_word copied },
        rw (et, e),
        with_words t (fill n (m - n) zero_word copied) (is_bit_set src) x.sound
            (AllWords-fill n (m - n) zero_word copied a refl)
            (length-fill n (m - n) zero_word copied ∙ l)
            (λ q. filled_part src t w x.sound le q ∙ sym (is_bit_set-raw src q w.clean))
            (λ q le'. ground arith),
        x.longer,
      )
      | inr e ↦ (
        record t { words = copied },
        rw (et, e),
        with_words t copied (is_bit_set src) x.sound a l
            (λ q. rw (is_bit_set-raw src q w.clean) (
              ground (
                arith,
                copied_part src t w x.sound le q,
                w.clean q,
                x.sound.clean q,
                behind_words src.length q w.valid.small,
              )))
            (λ q le'. ground arith),
        x.longer,
      )
    ]
