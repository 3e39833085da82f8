-- ===== src/Xanlib/Queue/Handle.antt =====
-- The operations of xanlib/src/xanqueue.c on the item of a queue that a handle names.
use cam_alias_checker.Prelude.{
  ℕ, suc, ◌<◌, ◌≡◌, ◌≢◌, refl, ap, sym, subst, ◌∙◌, true, false, some, List, [], ◌∷◌, length,
  length-set, length-map, set, set-Perm, get_or-set, ◌==◌, arith, Bool-cases, inl, inr,
}
use mathlib.Core.List.Perm
use mathlib.Core.Option.{some-injective}
use mathlib.Core.List.{Perm}
use cam_alias_checker.Xanlib.Queue.{
  Priorities, XanQueueItem, XanQueue, shift, is_at, at_address, set_priority, change_item_priority,
  remove_item,
}
use cam_alias_checker.Xanlib.Queue.Order.{IsOrder, IsHeapBut, changed-IsHeapBut}
use cam_alias_checker.Xanlib.Queue.Array.{
  content, contents, nowhere, item, key, IsPlaced, is_at-IsPlaced, contents-set, get_or-contents,
}
use cam_alias_checker.Xanlib.Queue.Shift.{shift-IsHeap}
use cam_alias_checker.Xanlib.Queue.Extract.{heap_extract_item-HasLess}
use cam_alias_checker.Xanlib.Queue.Heap.{IsQueue}

module _ {P : Type 0} where
  -- The item at an address stands somewhere, and it is there that its priority is written.
  at_address-item :
      ⦃float : Priorities P⦄ (h : ℕ) (r : P) (a : List (XanQueueItem P)) (x : XanQueueItem P)
      → at_address h a ≡ some x
      → (i : ℕ) × (i < length a)
        × (item a i ≡ x)
        × (x.address ≡ h)
        × (set_priority h r a ≡ set a i (record x { priority = r }))
  unfolding at_address set_priority
  at_address-item h r [] x e = absurd (ground (arith, e))
  at_address-item ⦃float = float⦄ h r (y ∷ a) x e =
      let f : XanQueueItem P → XanQueueItem P = λ z. record z { priority = r } in
      elim (Bool-cases (y.address == h)) [
        | inl t ↦
            let same : y ≡ x = some-injective y x (rw t at e) in
            let named : y.address ≡ h = ground arith in
            (
              0,
              omega arith,
              same,
              ap (λ z. z.address) (sym same) ∙ named,
              rw t (ap (λ z. z ∷ a) (ap f same)),
            )
        | inr t ↦
            let (i, li, at, named, write) = at_address-item ⦃float = float⦄ h r a x (rw t at e) in
            (suc i, omega (arith, li), at, named, rw t (ap (λ z. y ∷ z) write))
      ]

module _ {P : Type 0} ⦃float : Priorities P⦄ where
  -- A change of priority, from what its calls give.
  change_item_priority-runs :
      (q : XanQueue P) (h i : ℕ) (r : P) (x : XanQueueItem P) (b c : List (XanQueueItem P))
      → at_address h q.items ≡ some x
      → x.position ≡ i
      → set_priority h r q.items ≡ b
      → is_at b i ≡ true
      → shift b i ≡ some c
      → change_item_priority q h r ≡ some record q { items = c }
  unfolding change_item_priority
  change_item_priority-runs q h i r x b c found place write at eq =
      rw (found, write, place, at, eq) refl

  module _ (order : IsOrder float) (q : XanQueue P) (v : IsQueue q) where
    module _ (h : ℕ) (x : XanQueueItem P) (found : at_address h q.items ≡ some x) where
      -- The item that a handle names leaves the queue, and the rest is a heap again.
      pub remove_item-IsQueue :
          (q' : XanQueue P) × (remove_item q h ≡ some q')
          × IsQueue q'
          × Perm (contents q.items) (content x ∷ contents q'.items)
      unfolding remove_item
      remove_item-IsQueue =
          let a = q.items in
          let (i, li, at, named, write) = at_address-item h x.priority a x found in
          let place : x.position ≡ i = ap (λ z. z.position) (sym at) ∙ v.placed i li in
          let (b, eq, less) = heap_extract_item-HasLess order a i li v.placed v.heap in
          let size = less.size in
          let room = v.room in
          (
            record { items = b; max_size = q.max_size },
            rw (found, place, eq) refl,
            record {
              placed = less.placed;
              heap = less.heap;
              room = omega (arith, size, room);
              odd = v.odd;
            },
            subst (λ z. Perm (contents a) (content z ∷ contents b)) at less.perm,
          )

      -- The item that a handle names gets another priority, and the queue is a heap again.
      pub change_item_priority-IsQueue :
          (r : P)
          → (q' : XanQueue P) × (change_item_priority q h r ≡ some q')
            × IsQueue q'
            × Perm (content x ∷ contents q'.items) ((h, r, x.element) ∷ contents q.items)
      unfolding change_item_priority
      change_item_priority-IsQueue r =
          let a = q.items in
          let (i, li, at, named, write) = at_address-item h r a x found in
          let y : XanQueueItem P = record x { priority = r } in
          let b = set a i y in
          let size = length-set a i y in
          let place : x.position ≡ i = ap (λ z. z.position) (sym at) ∙ v.placed i li in
          let others : (j : ℕ) → j ≢ i → item b j ≡ item a j = λ j ne.
            let s : (i == j) ≡ false = ground arith in get_or-set a i j y nowhere li ∙ rw s refl in
          let placed : IsPlaced b = λ j lj. elim (Bool-cases (j == i)) [
            | inl t ↦
                let same : j ≡ i = ground arith in
                let s : (i == j) ≡ true = ground arith in
                let here : item b j ≡ y = get_or-set a i j y nowhere li ∙ rw s refl in
                ap (λ z. z.position) here ∙ place ∙ sym same
            | inr t ↦
                let ne : j ≢ i = ground arith in
                ap (λ z. z.position) (others j ne) ∙ v.placed j (omega (arith, lj, size))
          ] in
          let but : IsHeapBut (length b) (key b) i =
            subst (λ m. IsHeapBut m (key b) i) (sym size)
              (changed-IsHeapBut order (length a) (key a) (key b) i li v.heap
                (λ j lj ne. ap (λ z. z.priority) (others j ne))) in
          let lb : i < length b = omega (arith, size, li) in
          let (c, eq, has, heap) = shift-IsHeap order b i lb placed but in
          let size' = has.size in
          let room = v.room in
          let d = content nowhere in
          let written : Perm (content x ∷ contents b) ((h, r, x.element) ∷ contents a) =
            subst (λ z. Perm (content x ∷ contents b) ((z, r, x.element) ∷ contents a)) named
              (subst (λ z. Perm (content x ∷ z) (content y ∷ contents a)) (sym (contents-set a i y))
                (subst (λ z. Perm (z ∷ set (contents a) i (content y)) (content y ∷ contents a))
                  (get_or-contents a i ∙ ap content at)
                  (set-Perm (contents a) i (content y) d
                    (omega (arith, length-map a content, li))))) in
          (
            record { items = c; max_size = q.max_size },
            change_item_priority-runs q h i r x b c found place write (is_at-IsPlaced b i placed lb)
                eq,
            record {
              placed = has.placed;
              heap = heap;
              room = omega (arith, size, size', room);
              odd = v.odd;
            },
            Perm.trans (Perm.cons (content x) has.perm) written,
          )
