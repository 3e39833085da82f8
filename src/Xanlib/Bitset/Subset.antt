-- ===== src/Xanlib/Bitset/Subset.antt =====
-- `xanBitSet_isSubSetOf` against inclusion of the sets of positions.
use cam_alias_checker.Prelude.{
  ℕ, zero, suc, ◌+◌, ◌-◌, ◌≤◌, ◌<◌, ◌≡◌, ◌↔◌, true, false, min, ltb, ◌==◌, arith, refl, Bool-cases,
  inl, inr,
}
use cam_alias_checker.Xanlib.Bitset.Ops.{Bitset, bit_set, is_bit_set}
use cam_alias_checker.Xanlib.Bitset.Queries.{all_in, none_set, is_subset_of}

module _ (a b : Bitset) where
  all_in-forward :
      (n i k : ℕ)
      → all_in n a b i ≡ true
      → i ≤ k
      → k < i + n
      → bit_set a k ≡ true
      → bit_set b k ≡ true
  unfolding all_in
  all_in-forward zero i k e le lt h = absurd (omega arith)
  all_in-forward (suc n) i k e le lt h = elim (Bool-cases (i == k)) [
    | inl x ↦ ground (arith, e, h, x)
    | inr x ↦ all_in-forward n (i + 1) k (ground (arith, e)) (ground arith) (omega arith) h
  ]

  all_in-backward :
      (n i : ℕ)
      → ((k : ℕ) → i ≤ k → k < i + n → bit_set a k ≡ true → bit_set b k ≡ true)
      → all_in n a b i ≡ true
  unfolding all_in
  all_in-backward zero i f = refl
  all_in-backward (suc n) i f =
      let rest = all_in-backward n (i + 1) (λ k le lt. f k (omega arith) (omega arith)) in
      elim (Bool-cases (bit_set a i)) [
        | inl x ↦ ground (arith, x, rest, f i (omega arith) (omega arith) x)
        | inr x ↦ ground (arith, x, rest)
      ]

  none_set-forward : (n i k : ℕ) → none_set n a i ≡ true → i ≤ k → k < i + n → bit_set a k ≡ false
  unfolding none_set
  none_set-forward zero i k e le lt = absurd (omega arith)
  none_set-forward (suc n) i k e le lt = elim (Bool-cases (i == k)) [
    | inl x ↦ ground (arith, e, x)
    | inr x ↦ none_set-forward n (i + 1) k (ground (arith, e)) (ground arith) (omega arith)
  ]

  none_set-backward :
      (n i : ℕ) → ((k : ℕ) → i ≤ k → k < i + n → bit_set a k ≡ false) → none_set n a i ≡ true
  unfolding none_set
  none_set-backward zero i f = refl
  none_set-backward (suc n) i f = ground (
    arith,
    f i (omega arith) (omega arith),
    none_set-backward n (i + 1) (λ k le lt. f k (omega arith) (omega arith)),
  )

  is_subset_of-forward :
      (q : ℕ) → is_subset_of a b ≡ true → is_bit_set a q ≡ true → is_bit_set b q ≡ true
  unfolding is_subset_of
  is_subset_of-forward q e h =
      let n = min a.length b.length in
      let inside : all_in n a b 0 ≡ true = ground (arith, e) in
      let outside : none_set (a.length - n) a n ≡ true = ground (arith, e) in
      let below : ltb q a.length ≡ true = ground (arith, h) in
      let set : bit_set a q ≡ true = ground (arith, h) in
      elim (Bool-cases (ltb q b.length)) [
        | inl x ↦ ground (arith, x, all_in-forward n 0 q inside (omega arith) (ground arith) set)
        | inr x ↦
            ground (
              arith,
              set,
              none_set-forward (a.length - n) n q outside (ground arith) (ground arith),
            )
      ]

  is_subset_of-backward :
      ((q : ℕ) → is_bit_set a q ≡ true → is_bit_set b q ≡ true) → is_subset_of a b ≡ true
  unfolding is_subset_of
  is_subset_of-backward f = ground (
    arith,
    all_in-backward (min a.length b.length) 0 (λ k le lt h. inside k lt h),
    none_set-backward (a.length - min a.length b.length) (min a.length b.length)
        (λ k le lt. outside k le lt),
  )
    where
      inside : (k : ℕ) → k < 0 + min a.length b.length → bit_set a k ≡ true → bit_set b k ≡ true
      inside k lt h =
          let x : ltb k a.length ≡ true = ground arith in
          let y : ltb k b.length ≡ true = ground arith in ground (arith, x, y, h, f k)

      outside :
          (k : ℕ)
          → min a.length b.length ≤ k
          → k < min a.length b.length + (a.length - min a.length b.length)
          → bit_set a k ≡ false
      outside k le lt =
          let x : ltb k a.length ≡ true = ground arith in
          let y : ltb k b.length ≡ false = ground arith in
          elim (Bool-cases (bit_set a k)) [ inl h ↦ ground (arith, x, y, h, f k) | inr h ↦ h ]

  -- `xanBitSet_isSubSetOf` says yes when each position of the first bitset is one of the second, and
  -- only then.
  pub is_subset_of_lem :
      (is_subset_of a b ≡ true) ↔ ((q : ℕ) → is_bit_set a q ≡ true → is_bit_set b q ≡ true)
  is_subset_of_lem = (λ e q h. is_subset_of-forward q e h, is_subset_of-backward)
