-- ===== src/Xanlib/Bitset/Ranges.antt =====
-- `xanBitSet_setBits` and `xanBitSet_clearAll`.
use Prim.Native.Nat.{max}
use cam_alias_checker.Prelude.{
  ℕ, zero, suc, ◌+◌, ◌-◌, ◌%◌, ◌<◌, ◌≤◌, ◌≡◌, refl, false, ◌&&◌, ◌||◌, some, ltb, leb, arith, ◌∙◌,
  length, Bool-cases, inl, inr,
}
use cam_alias_checker.Xanlib.Bitset.Word.{word_bits, zero_word, bit-replicate-false}
use cam_alias_checker.Xanlib.Bitset.Words.{AllWords-fill, length-fill}
use cam_alias_checker.Xanlib.Bitset.Ops.{
  Bitset, words_necessary, set_digit, set_digits, set_bits, clear_all, is_bit_set,
}
use cam_alias_checker.Xanlib.Bitset.Valid.{raw, max_length, raw-fill}
use cam_alias_checker.Xanlib.Bitset.Sound.{IsSound, is_bit_set-raw}
use cam_alias_checker.Xanlib.Bitset.Update.{Becomes, with_words, set_digit-Becomes, expand_past_lem}

set_digits-Becomes :
    (n : ℕ) (t : Bitset) (pos : ℕ)
    → IsSound t
    → pos + n ≤ t.length
    → Becomes
        (record t { words = set_digits n t.words pos })
        (λ q. (leb pos q && ltb q (pos + n)) || raw t.words q)
unfolding set_digits
set_digits-Becomes zero t pos v h = record {
  sound = v;
  members = λ q. ground (arith, is_bit_set-raw t q v.clean);
}
set_digits-Becomes (suc n) t pos v h =
    let one = set_digit-Becomes t pos v (omega arith) in
    let t' = record t { words = set_digit t.words pos } in
    let rest = set_digits-Becomes n t' (pos + 1) one.sound (omega arith) in
    record {
      sound = rest.sound;
      members =
          λ q. rest.members q ∙ ground (arith, one.members q, is_bit_set-raw t' q one.sound.clean);
    }

set_range :
    (s t : Bitset) (start end : ℕ)
    → IsSound s
    → IsSound t
    → ((q : ℕ) → raw t.words q ≡ raw s.words q)
    → end < t.length
    → Becomes
        (record t { words = set_digits (end + 1 - start) t.words start })
        (λ q. (leb start q && leb q end) || is_bit_set s q)
unfolding set_digits
set_range s t start end v w same h = elim (Bool-cases (leb start end)) [
  | inl e ↦
      let b = set_digits-Becomes (end + 1 - start) t start w (ground arith) in
      record {
        sound = b.sound;
        members = λ q. b.members q ∙ ground (arith, same q, is_bit_set-raw s q v.clean);
      }
  | inr e ↦
      let none_left : end + 1 - start ≡ 0 = ground arith in
      rw none_left (record {
        sound = w;
        members =
            λ q. is_bit_set-raw t q w.clean ∙ ground (arith, same q, is_bit_set-raw s q v.clean);
      })
]

-- `xanBitSet_setBits` adds the positions from `start` to `end`, both included.
pub set_bits-Becomes :
    (s : Bitset) (start end : ℕ)
    → IsSound s
    → end + 1 < max_length
    → (t : Bitset) × (set_bits s start end ≡ some t)
      × Becomes t (λ q. (leb start q && leb q end) || is_bit_set s q)
      × (t.length ≡ max s.length (end + 1))
unfolding set_bits
set_bits-Becomes s start end v small =
    let (t, et, x) = expand_past_lem s end v small in
    let n = end + 1 - start in
    (
      record t { words = set_digits n t.words start },
      rw et,
      set_range s t start end v x.sound x.same (omega (arith, x.longer)),
      x.longer,
    )

-- `xanBitSet_clearAll` leaves no position, and the length as it is.
pub clear_all-Becomes :
    (s : Bitset)
    → IsSound s
    → Becomes (clear_all s) (λ q. false) × ((clear_all s).length ≡ s.length)
unfolding clear_all
clear_all-Becomes s v =
    let n = words_necessary s.length in
    let in_block : 0 + n ≤ length s.words = omega (arith, v.valid.allocated, v.valid.enough) in
    (
      with_words s _ (λ q. false) v (AllWords-fill 0 n zero_word s.words v.valid.words refl)
          (length-fill 0 n zero_word s.words)
          (λ q. ground (
            arith,
            raw-fill 0 n zero_word s.words q in_block,
            bit-replicate-false word_bits (q % word_bits),
            v.clean q,
            v.valid.small,
          ))
          (λ q _. refl),
      refl,
    )
