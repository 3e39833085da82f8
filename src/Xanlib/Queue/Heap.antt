-- ===== src/Xanlib/Queue/Heap.antt =====
-- The operations of xanlib/src/xanqueue.c on a queue whose items are in their places and in heap order.
use cam_alias_checker.Prelude.{
  ℕ, suc, ◌+◌, ◌%◌, ◌≤◌, ◌<◌, ◌≡◌, refl, ap, sym, subst, true, false, some, List, [], ◌∷◌, ◌++◌,
  length, get_or-append, ◌==◌, arith, Bool-cases, inl, inr,
}
use mathlib.Core.List.Perm
use mathlib.Core.List.{Perm, map-append, perm_append_singleton}
use cam_alias_checker.Xanlib.Queue.{Priorities, XanQueueItem, XanQueue, heap_parent, get, put}
use cam_alias_checker.Xanlib.Queue.Order.{IsOrder, IsHeap, IsHeapBut, IsHeap-top}
use cam_alias_checker.Xanlib.Queue.Array.{
  content, contents, nowhere, item, key, IsPlaced, is_at-IsPlaced,
}
use cam_alias_checker.Xanlib.Queue.Shift.{heap_shift_up-IsHeapAbove, heap_shift_down-IsHeap}
use cam_alias_checker.Xanlib.Queue.Ends.{length_more, more-IsPlaced}
use cam_alias_checker.Xanlib.Queue.Extract.{heap_extract_item-HasLess}

module _ {P : Type 0} ⦃float : Priorities P⦄ where
  -- The array has room for the items and, its size being odd, for both children of an inner node.
  pub record IsQueue (q : XanQueue P) : Type 0 where
    pub placed : IsPlaced q.items
    pub heap : IsHeap (length q.items) (key q.items)
    pub room : length q.items ≤ q.max_size
    pub odd : q.max_size % 2 ≡ 1

  -- An item behind a heap is in order but for its own edge.
  more-IsHeapBut :
      (a : List (XanQueueItem P)) (x : XanQueueItem P)
      → IsHeap (length a) (key a)
      → IsHeapBut (length (a ++ x ∷ [])) (key (a ++ x ∷ [])) (length a)
  more-IsHeapBut a x h =
      let more = length_more a x in
      let kept : (j : ℕ) → j < length a → key a j ≡ key (a ++ x ∷ []) j =
        λ j lj. ap (λ y. y.priority) (sym (get_or-append a (x ∷ []) j nowhere lj)) in
      record {
        edges = λ j pj lj ne np.
            let lt : j < length a = omega (arith, lj, more, ne) in
            let lp : heap_parent j < length a = omega (arith, lt, pj) in
            subst (λ y. float.le y (key (a ++ x ∷ []) (heap_parent j)) ≡ true) (kept j lt)
              (subst (λ y. float.le (key a j) y ≡ true) (kept (heap_parent j) lp) (h j pj lt));
        bridged = λ j pj lj e pk. absurd (omega (arith, pj, lj, e, more));
      }

  module _ (order : IsOrder float) (q : XanQueue P) (v : IsQueue q) where
    -- The new item comes to the others, whose heap it leaves in order, and the array grows when it is full.
    pub put-IsQueue :
        (h e : ℕ) (r : P)
        → (q' : XanQueue P) × (put h e r q ≡ some q')
          × IsQueue q'
          × Perm (contents q'.items) ((h, r, e) ∷ contents q.items)
    unfolding put
    put-IsQueue h e r =
        let a = q.items in
        let n = length a in
        let x : XanQueueItem P = record { address = h; priority = r; position = n; element = e } in
        let more = length_more a x in
        let (s, k, up, items, lk, above) =
          heap_shift_up-IsHeapAbove order (n + 1) (a ++ x ∷ []) n (omega arith)
            (omega (arith, more)) (more-IsPlaced a x v.placed refl) (more-IsHeapBut a x v.heap) in
        let size = items.size in
        let (t, m, down, items', lm, heap) =
          heap_shift_down-IsHeap order (n + 1 + 1) s k (omega (arith, size, more)) lk items.placed
            above in
        let size' = items'.size in
        let room = v.room in
        let odd = v.odd in
        let perm : Perm (contents t) ((h, r, e) ∷ contents a) = Perm.trans items'.perm (
          Perm.trans items.perm (
            subst (λ z. Perm z ((h, r, e) ∷ contents a)) (sym (map-append content a (x ∷ [])))
              (perm_append_singleton (h, r, e) (contents a)))) in
        elim (Bool-cases (n == q.max_size)) [
          | inl full ↦
              let same : n ≡ q.max_size = ground arith in
              (
                record { items = t; max_size = q.max_size + (n + 1) },
                rw (up, down, is_at-IsPlaced t m items'.placed lm, full) refl,
                record {
                  placed = items'.placed;
                  heap = heap;
                  room = omega (arith, size, size', more, same);
                  odd = omega (arith, same, odd);
                },
                perm,
              )
          | inr free ↦ (
            record { items = t; max_size = q.max_size },
            rw (up, down, is_at-IsPlaced t m items'.placed lm, free) refl,
            record {
              placed = items'.placed;
              heap = heap;
              room = ground (arith, size, size', more, room);
              odd = odd;
            },
            perm,
          )
        ]

    -- The item at the front leaves the queue, and no item was above it.
    pub get-IsQueue :
        0 < length q.items
        → (q' : XanQueue P) × (get q ≡ some ((item q.items 0).element, q'))
          × IsQueue q'
          × Perm (contents q.items) (content (item q.items 0) ∷ contents q'.items)
          × ((j : ℕ) → j < length q.items → float.le (key q.items j) (key q.items 0) ≡ true)
    unfolding get
    get-IsQueue pos =
        let a = q.items in
        let full : (length a == 0) ≡ false = ground (arith, pos) in
        let (b, eq, less) = heap_extract_item-HasLess order a 0 pos v.placed v.heap in
        let size = less.size in
        let room = v.room in
        (
          record { items = b; max_size = q.max_size },
          rw (full, eq) refl,
          record {
            placed = less.placed;
            heap = less.heap;
            room = omega (arith, size, room);
            odd = v.odd;
          },
          less.perm,
          λ j lj. IsHeap-top order (length a) (key a) (suc j) j (omega arith) lj v.heap,
        )
