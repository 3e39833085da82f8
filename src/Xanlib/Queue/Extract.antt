-- ===== src/Xanlib/Queue/Extract.antt =====
-- `heapExtractItem` of xanlib/src/xanqueue.c on a heap whose items are in their places.
use cam_alias_checker.Prelude.{
  ℕ, suc, ◌-◌, ◌<◌, ◌≡◌, ◌≢◌, refl, ap, sym, subst, ◌∙◌, true, false, Option, some, List, ◌∷◌,
  length, length-take, get_elem?-get_or, get_or-take, take, ltb, ◌==◌, arith, Bool-cases, inl, inr,
}
use mathlib.Core.List.Perm
use mathlib.Core.List.{Perm}
use cam_alias_checker.Xanlib.Queue.{Priorities, XanQueueItem, moved, heap_extract_item, shift}
use cam_alias_checker.Xanlib.Queue.Order.{IsOrder, IsHeap, IsHeapBut, changed-IsHeapBut}
use cam_alias_checker.Xanlib.Queue.Array.{
  Content, content, contents, nowhere, item, key, IsPlaced, swapped, is_at-IsPlaced,
  heap_swap_item-swapped, length-swapped, item-swapped, swapped-IsPlaced, swapped-Perm,
}
use cam_alias_checker.Xanlib.Queue.Shift.{shift-IsHeap}
use cam_alias_checker.Xanlib.Queue.Ends.{fewer-IsPlaced, fewer-Perm, fewer-IsHeap}

module _ {P : Type 0} ⦃float : Priorities P⦄ where
  -- `b` is `a` without one of its items.
  pub record HasLess (x : Content P) (a b : List (XanQueueItem P)) : Type 0 where
    pub size : suc (length b) ≡ length a
    pub placed : IsPlaced b
    pub heap : IsHeap (length b) (key b)
    pub perm : Perm (contents a) (x ∷ contents b)

  module _ (order : IsOrder float) (a : List (XanQueueItem P)) (p : ℕ) (lp : p < length a) where
    -- The last item.
    last-HasLess :
        length a ≡ suc p
        → IsPlaced a
        → IsHeap (length a) (key a)
        → HasLess (content (item a p)) a (take p a)
    last-HasLess e v h =
        let cut = length-take p a in
        record {
          size = omega (arith, cut, e);
          placed = fewer-IsPlaced p a (omega (arith, e)) v;
          heap = fewer-IsHeap p a (omega (arith, e)) h;
          perm = fewer-Perm p a e;
        }

    module _ (n : ℕ) (e : length a ≡ suc n) (lt : p < n) where
      ln : n < length a
      ln = omega (arith, e)

      last_swapped : item (swapped a p n) n ≡ moved (item a p) n
      last_swapped =
          let s : (p == n) ≡ false = ground (arith, lt) in
          let t : (n == n) ≡ true = ground arith in item-swapped a p n lp ln n ∙ rw (s, t) refl

      others_swapped : (j : ℕ) → j < n → j ≢ p → key (take n (swapped a p n)) j ≡ key a j
      others_swapped j lj ne =
          let s : (p == j) ≡ false = ground arith in
          let t : (n == j) ≡ false = ground (arith, lj) in
          let same : item (swapped a p n) j ≡ item a j =
            item-swapped a p n lp ln j ∙ rw (s, t) refl in
          ap (λ y. y.priority) (get_or-take n (swapped a p n) j nowhere lj ∙ same)

      -- An item before the last one, whose place the last one takes.
      inner-HasLess :
          IsPlaced a
          → IsHeap (length a) (key a)
          → (b : List (XanQueueItem P)) × (shift (take n (swapped a p n)) p ≡ some b)
            × HasLess (content (item a p)) a b
      inner-HasLess v h =
          let s = swapped a p n in
          let size = length-swapped a p n lp ln in
          let cut = length-take n s in
          let is_n : length (take n s) ≡ n = omega (arith, cut, size, e) in
          let but : IsHeapBut (length (take n s)) (key (take n s)) p =
            subst (λ m. IsHeapBut m (key (take n s)) p) (sym is_n)
              (changed-IsHeapBut order n (key a) (key (take n s)) p lt
                (λ j pj lj. h j pj (omega (arith, lj, e))) others_swapped) in
          let placed =
            fewer-IsPlaced n s (omega (arith, size, e)) (swapped-IsPlaced a p n lp ln v) in
          let (b, eq, has, heap) =
            shift-IsHeap order (take n s) p (omega (arith, is_n, lt)) placed but in
          let sb = has.size in
          (
            b,
            eq,
            record {
              size = omega (arith, sb, is_n, e);
              placed = has.placed;
              heap = heap;
              perm = Perm.trans (Perm.symm (swapped-Perm a p n lp ln)) (
                  Perm.trans (fewer-Perm n s (omega (arith, size, e))) (
                    subst (λ z. Perm (z ∷ contents (take n s)) (content (item a p) ∷ contents b))
                      (sym (ap content last_swapped))
                      (Perm.cons (content (item a p)) (Perm.symm has.perm))));
            },
          )

    -- An item that is taken out.
    pub heap_extract_item-HasLess :
        IsPlaced a
        → IsHeap (length a) (key a)
        → (b : List (XanQueueItem P)) × (heap_extract_item a p ≡ some ((item a p).element, b))
          × HasLess (content (item a p)) a b
    unfolding heap_extract_item
    heap_extract_item-HasLess v h =
        let n = length a - 1 in
        let e : length a ≡ suc n = omega (arith, lp) in
        let bound : ltb p (length a) ≡ true = ground (arith, lp) in
        let at = is_at-IsPlaced a p v lp in
        elim (Bool-cases (p == n)) [
          | inl t ↦
              let same : p ≡ n = ground arith in
              let f : ℕ → Option (ℕ × List (XanQueueItem P)) =
                λ m. some ((item a m).element, take m a) in
              (
                take p a,
                rw (bound, at, t, get_elem?-get_or a n nowhere (omega (arith, e)))
                    (ap f (sym same)),
                last-HasLess (e ∙ ap suc (sym same)) v h,
              )
          | inr t ↦
              let lt : p < n = ground (arith, lp) in
              let s = swapped a p n in
              let size = length-swapped a p n lp (omega (arith, e)) in
              let cut = length-take n s in
              let placed =
                fewer-IsPlaced n s (omega (arith, size, e))
                  (swapped-IsPlaced a p n lp (omega (arith, e)) v) in
              let (b, eq, less) = inner-HasLess n e lt v h in
              (
                b,
                rw
                    (
                      bound,
                      at,
                      t,
                      heap_swap_item-swapped a p n lp (omega (arith, e)),
                      get_elem?-get_or s n nowhere (omega (arith, size, e)),
                      is_at-IsPlaced (take n s) p placed (omega (arith, cut, size, e, lt)),
                      eq,
                    )
                    (ap (λ y. some (y.element, b)) (last_swapped n e lt)),
                less,
              )
        ]
