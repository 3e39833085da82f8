-- ===== src/Xanlib/Queue/Shift.antt =====
-- The loops of a heap end, keep the items and make a heap again.
use cam_alias_checker.Prelude.{
  ℕ, zero, suc, ◌+◌, ◌*◌, ◌/◌, ◌<◌, ◌≡◌, refl, sym, subst, ◌∙◌, some, List, length,
  get_elem?-get_or, leb, ◌==◌, arith, Bool-cases, inl, inr,
}
use mathlib.Core.List.Perm
use mathlib.Core.List.{Perm}
use cam_alias_checker.Xanlib.Queue.{
  Priorities, XanQueueItem, heap_parent, largest, heap_shift_down, heap_shift_up, shift,
}
use cam_alias_checker.Xanlib.Queue.Order.{
  IsOrder, IsHeap, IsHeapBut, IsHeapAbove, up-IsHeapBut, up-IsHeapAbove, down-IsHeapAbove,
  down-IsHeap,
}
use cam_alias_checker.Xanlib.Queue.Array.{
  contents, nowhere, key, IsPlaced, swapped, is_at-IsPlaced, length-swapped, key-swapped,
  swapped-IsPlaced, swapped-Perm,
}
use cam_alias_checker.Xanlib.Queue.Greatest.{largest-IsGreatest}

module _ {P : Type 0} ⦃float : Priorities P⦄ where
  -- `b` has the items of `a`, each with its position.
  pub record HasItems (a b : List (XanQueueItem P)) : Type 0 where
    pub size : length b ≡ length a
    pub placed : IsPlaced b
    pub perm : Perm (contents b) (contents a)

  HasItems-swapped :
      (a b : List (XanQueueItem P)) (i j : ℕ)
      → i < length a
      → j < length a
      → HasItems (swapped a i j) b
      → HasItems a b
  HasItems-swapped a b i j li lj v = record {
    size = v.size ∙ length-swapped a i j li lj;
    placed = v.placed;
    perm = Perm.trans v.perm (swapped-Perm a i j li lj);
  }

  module _ (order : IsOrder float) where
    pub HasItems-refl : (a : List (XanQueueItem P)) → IsPlaced a → HasItems a a
    HasItems-refl a v = record { size = refl; placed = v; perm = Perm.refl (contents a) }

    -- An item goes up from a place at whose edges alone the order may fail.
    pub heap_shift_up-IsHeapAbove :
        (fuel : ℕ) (a : List (XanQueueItem P)) (p : ℕ)
        → p < fuel
        → p < length a
        → IsPlaced a
        → IsHeapBut (length a) (key a) p
        → (b : List (XanQueueItem P)) × (k : ℕ) × (heap_shift_up fuel a p ≡ some (b, k))
          × HasItems a b
          × (k < length b)
          × IsHeapAbove (length b) (key b) k
    unfolding heap_shift_up
    heap_shift_up-IsHeapAbove zero a p lf lp v h = absurd (omega (arith, lf))
    heap_shift_up-IsHeapAbove (suc fuel) a p lf lp v h =
        let n = length a in
        let c = heap_parent p in
        elim (Bool-cases (p == 0)) [
          | inl z ↦ (
            a,
            p,
            rw z refl,
            HasItems-refl a v,
            lp,
            up-IsHeapAbove order n (key a) p h (λ pos. absurd (ground (arith, pos))),
          )
          | inr z ↦
              let pos : 0 < p = ground arith in
              let lc : c < n = omega (arith, lp) in
              let cp : c < p = omega (arith, pos) in
              let here = get_elem?-get_or a p nowhere lp in
              let there = get_elem?-get_or a c nowhere lc in
              elim (Bool-cases (float.le (key a p) (key a c))) [
                | inl t ↦ (
                  a,
                  p,
                  rw (z, here, there, t) refl,
                  HasItems-refl a v,
                  lp,
                  up-IsHeapAbove order n (key a) p h (λ pos'. t),
                )
                | inr t ↦
                    let s = swapped a p c in
                    let size = length-swapped a p c lp lc in
                    let keys = key-swapped a p c lp lc (omega (arith, cp)) in
                    let h' : IsHeapBut (length s) (key s) c =
                      subst (λ m. IsHeapBut m (key s) c) (sym size)
                        (subst (λ f. IsHeapBut n f c) (sym keys)
                          (up-IsHeapBut order n (key a) p pos lp h t)) in
                    let (b, k, e, items, lk, above) =
                      heap_shift_up-IsHeapAbove fuel s c (omega (arith, cp, lf))
                        (omega (arith, size, lc)) (swapped-IsPlaced a p c lp lc v) h' in
                    (
                      b,
                      k,
                      rw (z, here, there, t) e,
                      HasItems-swapped a b p c lp lc items,
                      lk,
                      above,
                    )
              ]
        ]

    -- An item goes down from a place below which alone the order may fail.
    pub heap_shift_down-IsHeap :
        (fuel : ℕ) (a : List (XanQueueItem P)) (p : ℕ)
        → length a < p + fuel
        → p < length a
        → IsPlaced a
        → IsHeapAbove (length a) (key a) p
        → (b : List (XanQueueItem P)) × (k : ℕ) × (heap_shift_down fuel a p ≡ some (b, k))
          × HasItems a b
          × (k < length b)
          × IsHeap (length b) (key b)
    unfolding heap_shift_down
    heap_shift_down-IsHeap zero a p lf lp v h = absurd (omega (arith, lf, lp))
    heap_shift_down-IsHeap (suc fuel) a p lf lp v h =
        let n = length a in
        elim (Bool-cases (leb (n / 2) p)) [
          | inl z ↦ (
            a,
            p,
            rw z refl,
            HasItems-refl a v,
            lp,
            down-IsHeap order n (key a) p (λ j pj lj e. absurd (ground (arith, pj, lj, e))) h,
          )
          | inr z ↦
              let g = largest-IsGreatest order a p (let lt : 2 * p + 1 < n = ground arith in lt) in
              let c = largest a p in
              let lc = g.bound in
              let pc : p < c = (let x = g.child in let y = g.positive in omega (arith, x, y)) in
              let here = get_elem?-get_or a p nowhere lp in
              let there = get_elem?-get_or a c nowhere lc in
              elim (Bool-cases (float.le (key a c) (key a p))) [
                | inl t ↦ (
                  a,
                  p,
                  rw (z, there, here, t) refl,
                  HasItems-refl a v,
                  lp,
                  down-IsHeap order n (key a) p
                      (λ j pj lj e.
                        order.trans (key a j) (key a c) (key a p) (g.greatest j pj lj e) t)
                      h,
                )
                | inr t ↦
                    let s = swapped a p c in
                    let size = length-swapped a p c lp lc in
                    let keys = key-swapped a p c lp lc (omega (arith, pc)) in
                    let h' : IsHeapAbove (length s) (key s) c =
                      subst (λ m. IsHeapAbove m (key s) c) (sym size)
                        (subst (λ f. IsHeapAbove n f c) (sym keys)
                          (down-IsHeapAbove order n (key a) p c g.positive lc g.child g.greatest h
                            t)) in
                    let (b, k, e, items, lk, heap) =
                      heap_shift_down-IsHeap fuel s c (omega (arith, size, pc, lf))
                        (omega (arith, size, lc)) (swapped-IsPlaced a p c lp lc v) h' in
                    (b, k, rw (z, there, here, t) e, HasItems-swapped a b p c lp lc items, lk, heap)
              ]
        ]

    -- Up and then down from a place at whose edges alone the order may fail.
    pub shift-IsHeap :
        (a : List (XanQueueItem P)) (p : ℕ)
        → p < length a
        → IsPlaced a
        → IsHeapBut (length a) (key a) p
        → (b : List (XanQueueItem P)) × (shift a p ≡ some b)
          × HasItems a b
          × IsHeap (length b) (key b)
    unfolding shift
    shift-IsHeap a p lp v h =
        let (b, k, e, items, lk, above) =
          heap_shift_up-IsHeapAbove (p + 1) a p (omega arith) lp v h in
        let size = items.size in
        let (c, m, e', items', lm, heap) =
          heap_shift_down-IsHeap (length a + 1) b k (omega (arith, size)) lk items.placed above in
        (
          c,
          rw (e, is_at-IsPlaced b k items.placed lk, e', is_at-IsPlaced c m items'.placed lm) refl,
          record {
            size = items'.size ∙ size;
            placed = items'.placed;
            perm = Perm.trans items'.perm items.perm;
          },
          heap,
        )
