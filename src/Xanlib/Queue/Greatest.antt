-- ===== src/Xanlib/Queue/Greatest.antt =====
-- The child of an item that `heapShiftDown` of xanlib/src/xanqueue.c chooses.
use cam_alias_checker.Prelude.{
  ℕ, ◌+◌, ◌*◌, ◌≤◌, ◌<◌, ◌≡◌, ap, sym, subst, ◌∙◌, true, some, List, length, get_elem?,
  get_elem?-get_or, get_elem?-none, leb, ◌==◌, arith, Bool-cases, inl, inr,
}
use cam_alias_checker.Xanlib.Queue.{Priorities, XanQueueItem, heap_parent, chosen, largest}
use cam_alias_checker.Xanlib.Queue.Order.{IsOrder, le_refl}
use cam_alias_checker.Xanlib.Queue.Array.{nowhere, item, key}

module _ {P : Type 0} ⦃float : Priorities P⦄ where
  module _ (order : IsOrder float) where
    -- The child that goes up is one of the children, and none of them is above it.
    pub record IsGreatest (a : List (XanQueueItem P)) (p c : ℕ) : Type 0 where
      pub positive : 0 < c
      pub bound : c < length a
      pub child : heap_parent c ≡ p
      pub greatest :
          (j : ℕ) → 0 < j → j < length a → heap_parent j ≡ p → float.le (key a j) (key a c) ≡ true

    children :
        (a : List (XanQueueItem P)) (p c : ℕ)
        → (2 * p + 1 < length a → float.le (key a (2 * p + 1)) (key a c) ≡ true)
        → (2 * p + 2 < length a → float.le (key a (2 * p + 2)) (key a c) ≡ true)
        → (j : ℕ) → 0 < j
        → j < length a
        → heap_parent j ≡ p
        → float.le (key a j) (key a c) ≡ true
    children a p c left right j pj lj e = elim (Bool-cases (j == 2 * p + 1)) [
      | inl q ↦
          let same : j ≡ 2 * p + 1 = ground arith in
          subst (λ z. float.le (key a z) (key a c) ≡ true) (sym same)
            (left (omega (arith, same, lj)))
      | inr q ↦
          let same : j ≡ 2 * p + 2 = ground arith in
          subst (λ z. float.le (key a z) (key a c) ≡ true) (sym same)
            (right (omega (arith, same, lj)))
    ]

    pub largest-IsGreatest :
        (a : List (XanQueueItem P)) (p : ℕ) → 2 * p + 1 < length a → IsGreatest a p (largest a p)
    unfolding largest
    largest-IsGreatest a p lt =
        let l = 2 * p + 1 in
        let r = 2 * p + 2 in
        let first : largest a p ≡ chosen (some (item a l)) (get_elem? a r) p =
          ap (λ z. chosen z (get_elem? a r) p) (get_elem?-get_or a l nowhere lt) in
        elim (Bool-cases (leb (length a) r)) [
          | inl q ↦
              let second = get_elem?-none a r (let le : length a ≤ r = ground arith in le) in
              subst (IsGreatest a p) (sym (first ∙ ap (λ z. chosen (some (item a l)) z p) second))
                record {
                  positive = omega arith;
                  bound = lt;
                  child = omega arith;
                  greatest =
                      children a p l (λ h. le_refl order (key a l))
                        (λ h. absurd (ground (arith, h)));
                }
          | inr q ↦
              let lr : r < length a = ground arith in
              let second = get_elem?-get_or a r nowhere lr in
              subst (IsGreatest a p) (sym (first ∙ ap (λ z. chosen (some (item a l)) z p) second))
                (elim (Bool-cases (float.le (key a r) (key a l))) [
                  | inl t ↦ rw t record {
                    positive = omega arith;
                    bound = lt;
                    child = omega arith;
                    greatest = children a p l (λ h. le_refl order (key a l)) (λ h. t);
                  }
                  | inr t ↦
                      let other = order.total (key a r) (key a l) t in
                      rw (t, other)
                        record {
                          positive = omega arith;
                          bound = lr;
                          child = omega arith;
                          greatest = children a p r (λ h. other) (λ h. le_refl order (key a r));
                        }
                ])
        ]
