-- ===== src/Libcam/MemSet/Entry.antt =====
-- What the operations on an entry do to the accesses that it stands for.
use cam_alias_checker.Prelude.{
  ℕ, suc, ◌+◌, ◌-◌, ◌*◌, ◌%◌, ◌^◌, ◌≤◌, ◌<◌, ◌≡◌, refl, ap, sym, ◌∙◌, true, List, [], ◌∷◌, ◌++◌,
  reverse, if◌then◌else◌, arith, Bool-cases, inl, inr, some, length, take, drop,
}
use cam_alias_checker.Libcam.Machine.{word, sub_word, is_negative}
use cam_alias_checker.Libcam.Accesses.{
  Access, run, run-congruent, run_split, run_part, reverse-run, length-run,
}
use cam_alias_checker.Libcam.MemSet.{
  MemSetEntry, Uninit, MemSet, entry, get_num_instances, split_off_end, get_slice, split_trivial,
  get_normalised, get_last,
}

unfoldable pub entry_accesses : MemSetEntry → List Access
entry_accesses e = run (e.end + 1 - e.start) e.base e.stride e.length

unfoldable pub accesses : MemSet → List Access
unfolding entry_accesses
accesses [] = []
accesses (e ∷ es) = entry_accesses e ++ accesses es

-- The instances of an entry are numbered by words, and its addresses are words.
pub record IsEntry (e : MemSetEntry) : Type 0 where
  pub ordered : e.start ≤ e.end
  pub counted : e.end + 1 < word
  pub base : e.base < word

pub length-entry_accesses : (e : MemSetEntry) → length (entry_accesses e) ≡ e.end + 1 - e.start
unfolding entry_accesses
length-entry_accesses e = length-run (e.end + 1 - e.start) e.base e.stride e.length

-- `left` has the accesses of `e` up to instance `last`, and `new` has the later ones.
pub record IsSplit (e : MemSetEntry) (last : ℕ) (left new : MemSetEntry) : Type 0 where
  pub accesses : entry_accesses e ≡ entry_accesses left ++ entry_accesses new
  pub left_valid : IsEntry left
  pub new_valid : IsEntry new
  pub left_start : left.start ≡ e.start
  pub left_end : left.end ≡ last
  pub new_start : new.start ≡ last + 1
  pub new_end : new.end ≡ e.end

least : (s : ℕ) → is_negative s ≡ true → is_negative (word - s) ≡ true → s ≡ 2 ^ 63
least s p q = ground arith

module _ (u : Uninit) (e : MemSetEntry) (v : IsEntry e) where
  -- Splitting off some instances of an entry, but not all, leaves two entries with its accesses, the
  -- second with the number asked for.
  pub split_off_end-IsSplit :
      (n : ℕ)
      → 0 < n
      → n ≤ e.end - e.start
      → IsSplit e (e.end - n) (split_off_end u n e).0 (split_off_end u n e).1
  unfolding split_off_end entry_accesses
  split_off_end-IsSplit n pos le =
      let k = e.end - n + 1 - e.start in
      let remaining : sub_word (get_num_instances e) n ≡ k = omega (arith, v.ordered, v.counted) in
      let last : sub_word e.end n ≡ e.end - n = omega (arith, v.ordered, v.counted) in
      let first : (e.start + k) % word ≡ e.end - n + 1 = omega (arith, v.ordered, v.counted) in
      let size : e.end + 1 - e.start - k ≡ e.end + 1 - (e.end - n + 1) = omega (arith, v.ordered) in
      rw (remaining, last, first)
        record {
          accesses =
              run_split (e.end + 1 - e.start) k e.base e.stride e.length (omega (arith, v.ordered))
              ∙ ap
                  (λ z.
                    run k e.base e.stride e.length
                    ++ run z ((e.base + k * e.stride) % word) e.stride e.length)
                  size;
          left_valid = record {
            ordered = omega arith;
            counted = omega (arith, v.counted);
            base = v.base;
          };
          new_valid = record { ordered = omega arith; counted = v.counted; base = omega arith };
          left_start = refl;
          left_end = refl;
          new_start = refl;
          new_end = refl;
        }

  -- A slice within an entry has the accesses of its instances.
  pub get_slice-accesses :
      (s t : ℕ)
      → e.start ≤ s
      → s ≤ t
      → t ≤ e.end
      → (m : MemSetEntry) × (get_slice u s t e ≡ some m)
        × IsEntry m
        × (entry_accesses m ≡ take (t + 1 - s) (drop (s - e.start) (entry_accesses e)))
  unfolding get_slice entry_accesses
  get_slice-accesses s t ls lt le = (
    entry u ((e.base + (s - e.start) * e.stride) % word) e.stride e.length s t,
    (let k : sub_word s e.start ≡ s - e.start = omega (arith, v.counted) in ground (arith, k)),
    record { ordered = lt; counted = omega (arith, v.counted); base = omega arith },
    run_part (e.end + 1 - e.start) (s - e.start) (t + 1 - s) e.base e.stride e.length (omega arith),
  )

  -- `splitTrivial` of an entry with two or more instances leaves the first one.
  pub split_trivial-IsSplit :
      e.start < e.end → IsSplit e e.start (split_trivial u e).0 (split_trivial u e).1
  unfolding split_trivial entry_accesses
  split_trivial-IsSplit lt =
      let next : (e.start + 1) % word ≡ e.start + 1 = omega (arith, v.counted) in
      let one : e.start + 1 - e.start ≡ 1 = omega arith in
      let size : e.end + 1 - e.start - 1 ≡ e.end + 1 - (e.start + 1) = omega arith in
      let at : (e.base + 1 * e.stride) % word ≡ (e.base + e.stride) % word = omega arith in
      rw (next) record {
        accesses =
            run_split (e.end + 1 - e.start) 1 e.base e.stride e.length (omega arith)
            ∙ ap
                (λ z.
                  run z e.base e.stride e.length
                  ++ run (e.end + 1 - e.start - 1) ((e.base + 1 * e.stride) % word) e.stride
                      e.length)
                (sym one)
            ∙ ap
                (λ z.
                  run (e.start + 1 - e.start) e.base e.stride e.length
                  ++ run z ((e.base + 1 * e.stride) % word) e.stride e.length)
                size
            ∙ ap
                (λ z.
                  run (e.start + 1 - e.start) e.base e.stride e.length
                  ++ run (e.end + 1 - (e.start + 1)) z e.stride e.length)
                at;
        left_valid = record {
          ordered = omega arith;
          counted = omega (arith, v.counted);
          base = v.base;
        };
        new_valid = record { ordered = omega arith; counted = v.counted; base = omega arith };
        left_start = refl;
        left_end = refl;
        new_start = refl;
        new_end = refl;
      }

  backwards :
      e.stride < word
      → run (e.end + 1 - e.start) (get_last e) (word - e.stride) e.length
        ≡ reverse (entry_accesses e)
  unfolding entry_accesses
  backwards ls =
      let n = e.end - e.start in
      let size : e.end + 1 - e.start ≡ suc n = omega (arith, v.ordered) in
      let distance : sub_word e.end e.start ≡ n = omega (arith, v.ordered, v.counted) in
      let opposite : (e.stride + (word - e.stride)) % word ≡ 0 = omega (arith, ls) in
      let last : get_last e % word ≡ (e.base + n * e.stride) % word = rw distance (omega arith) in
      rw size (
        run-congruent (suc n) (get_last e) (e.base + n * e.stride) (word - e.stride)
          (word - e.stride) e.length last refl
        ∙ sym (reverse-run n e.base e.stride (word - e.stride) e.length opposite))

  -- An entry with a negative stride is normalised to one with the accesses backwards, and another one
  -- is left as it is.
  pub get_normalised-accesses :
      e.stride < word
      → (is_negative (get_normalised u e).stride ≡ true → e.stride ≡ 2 ^ 63)
        × (entry_accesses (get_normalised u e)
            ≡ (if is_negative e.stride then reverse (entry_accesses e) else entry_accesses e))
  unfolding get_normalised entry_accesses
  get_normalised-accesses ls = elim (Bool-cases (is_negative e.stride)) [
    | inr p ↦ rw p (λ q. cc, refl)
    | inl p ↦ rw p (λ q. omega (arith, least e.stride p q), backwards ls)
  ]
