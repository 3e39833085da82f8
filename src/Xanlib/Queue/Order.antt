-- ===== src/Xanlib/Queue/Order.antt =====
-- The order of a heap, on the priorities as a function of the position.
use cam_alias_checker.Prelude.{
  ℕ, zero, suc, ◌<◌, ◌≡◌, ◌≢◌, refl, ap, sym, subst, ◌∙◌, true, false, ◌==◌, if◌then◌else◌, arith,
  Bool-cases, inl, inr,
}
use cam_alias_checker.Xanlib.Queue.{Priorities, heap_parent}

-- What the comparison of priorities that are numbers satisfies.
pub record IsOrder {P : Type 0} (float : Priorities P) : Type 0 where
  pub total : (a b : P) → float.le a b ≡ false → float.le b a ≡ true
  pub trans : (a b c : P) → float.le a b ≡ true → float.le b c ≡ true → float.le a c ≡ true

module _ {P : Type 0} where
  -- `f` with the values at `i` and `j` exchanged
  abbrev pub exchanged : (ℕ → P) → ℕ → ℕ → ℕ → P
  exchanged f i j c = if c == j then f i else if c == i then f j else f c

  at_second : (f : ℕ → P) (i j : ℕ) → exchanged f i j j ≡ f i
  at_second f i j = let e : (j == j) ≡ true = ground arith in rw e refl

  at_first : (f : ℕ → P) (i j : ℕ) → i ≢ j → exchanged f i j i ≡ f j
  at_first f i j ne =
      let e : (i == j) ≡ false = ground arith in
      let r : (i == i) ≡ true = ground arith in rw (e, r) refl

  elsewhere : (f : ℕ → P) (i j c : ℕ) → c ≢ i → c ≢ j → exchanged f i j c ≡ f c
  elsewhere f i j c ni nj =
      let e : (c == i) ≡ false = ground arith in
      let r : (c == j) ≡ false = ground arith in rw (r, e) refl

module _ {P : Type 0} ⦃float : Priorities P⦄ where
  -- A comparison of equals.
  le_by : {a b x y : P} → x ≡ a → y ≡ b → float.le a b ≡ true → float.le x y ≡ true
  le_by {a = a} {x = x} {y = y} p q h = ap (λ z. float.le z y) p ∙ ap (λ z. float.le a z) q ∙ h

  pub le_refl : IsOrder float → (x : P) → float.le x x ≡ true
  le_refl order x = elim (Bool-cases (float.le x x)) [ inl p ↦ p | inr p ↦ order.total x x p ]

  -- The priority at `j` is not above that of its parent.
  abbrev pub IsEdge : (ℕ → P) → ℕ → Type 0
  IsEdge f j = float.le (f j) (f (heap_parent j)) ≡ true

  abbrev pub IsHeap : ℕ → (ℕ → P) → Type 0
  IsHeap n f = (j : ℕ) → 0 < j → j < n → IsEdge f j

  -- The children of `k` are not above the parent of `k`.
  abbrev pub IsBridged : ℕ → (ℕ → P) → ℕ → Type 0
  IsBridged n f k =
      (j : ℕ)
      → 0 < j
      → j < n
      → heap_parent j ≡ k
      → 0 < k
      → float.le (f j) (f (heap_parent k)) ≡ true

  -- A heap but for the edges at `k`, and one but for the edges below `k`.
  pub record IsHeapBut (n : ℕ) (f : ℕ → P) (k : ℕ) : Type 0 where
    pub edges : (j : ℕ) → 0 < j → j < n → j ≢ k → heap_parent j ≢ k → IsEdge f j
    pub bridged : IsBridged n f k

  pub record IsHeapAbove (n : ℕ) (f : ℕ → P) (k : ℕ) : Type 0 where
    pub edges : (j : ℕ) → 0 < j → j < n → heap_parent j ≢ k → IsEdge f j
    pub bridged : IsBridged n f k

  module _ (order : IsOrder float) (n : ℕ) (f : ℕ → P) where
    -- One round up: an item that is above its parent changes places with it.
    pub up-IsHeapBut :
        (k : ℕ)
        → 0 < k
        → k < n
        → IsHeapBut n f k
        → float.le (f k) (f (heap_parent k)) ≡ false
        → IsHeapBut n (exchanged f k (heap_parent k)) (heap_parent k)
    up-IsHeapBut k pos lt v above =
        let p = heap_parent k in
        let pk : p < k = omega (arith, pos) in
        record {
          edges = λ j pj lj ne np.
              let jk : j ≢ k = λ e. np (ap heap_parent e) in
              let here = elsewhere f k p j jk ne in
              elim (Bool-cases (heap_parent j == k)) [
                | inl t ↦
                    let e : heap_parent j ≡ k = ground arith in
                    le_by here (ap (exchanged f k p) e ∙ at_first f k p (omega (arith, pk)))
                      (v.bridged j pj lj e pos)
                | inr t ↦
                    let ne' : heap_parent j ≢ k = ground arith in
                    le_by here (elsewhere f k p (heap_parent j) ne' np) (v.edges j pj lj jk ne')
              ];
          bridged = λ j pj lj e pp.
              let up = elsewhere f k p (heap_parent p) (omega (arith, pk)) (omega (arith, pp)) in
              let over =
                v.edges p pp (omega (arith, pk, lt)) (omega (arith, pk)) (omega (arith, pk)) in
              elim (Bool-cases (j == k)) [
                | inl t ↦
                    let same : j ≡ k = ground arith in
                    le_by (ap (exchanged f k p) same ∙ at_first f k p (omega (arith, pk))) up over
                | inr t ↦
                    let jk : j ≢ k = ground arith in
                    le_by (elsewhere f k p j jk (omega (arith, pj, e))) up (
                      order.trans (f j) (f p) (f (heap_parent p))
                        (le_by refl (sym (ap f e)) (v.edges j pj lj jk (omega (arith, e, pk))))
                        over)
              ];
        }

    -- The end of the way up.
    pub up-IsHeapAbove : (k : ℕ) → IsHeapBut n f k → (0 < k → IsEdge f k) → IsHeapAbove n f k
    up-IsHeapAbove k v edge = record {
      edges = λ j pj lj np. elim (Bool-cases (j == k)) [
        | inl t ↦
            let same : j ≡ k = ground arith in
            subst (IsEdge f) (sym same) (edge (subst (λ z. 0 < z) same pj))
        | inr t ↦ v.edges j pj lj (let ne : j ≢ k = ground arith in ne) np
      ];
      bridged = v.bridged;
    }

    -- One round down: the greater child changes places with an item that is below it.
    pub down-IsHeapAbove :
        (k c : ℕ)
        → 0 < c
        → c < n
        → heap_parent c ≡ k
        → ((j : ℕ) → 0 < j → j < n → heap_parent j ≡ k → float.le (f j) (f c) ≡ true)
        → IsHeapAbove n f k
        → float.le (f c) (f k) ≡ false
        → IsHeapAbove n (exchanged f k c) c
    down-IsHeapAbove k c pc lc e greatest v below =
        let kc : k < c = omega (arith, pc, e) in
        let k_is : exchanged f k c k ≡ f c = at_first f k c (omega (arith, kc)) in
        record {
          edges = λ j pj lj np. elim (Bool-cases (j == c)) [
            | inl t ↦
                let same : j ≡ c = ground arith in
                le_by (ap (exchanged f k c) same ∙ at_second f k c)
                  (ap (exchanged f k c) (ap heap_parent same ∙ e) ∙ k_is)
                  (order.total (f c) (f k) below)
            | inr t ↦
                let jc : j ≢ c = ground arith in
                elim (Bool-cases (j == k)) [
                  | inl r ↦
                      let same : j ≡ k = ground arith in
                      let pk : 0 < k = subst (λ z. 0 < z) same pj in
                      le_by (ap (exchanged f k c) same ∙ k_is)
                        (elsewhere f k c (heap_parent j) (omega (arith, pj, same)) np
                          ∙ ap (λ z. f (heap_parent z)) same)
                        (v.bridged c pc lc e pk)
                  | inr r ↦
                      let jk : j ≢ k = ground arith in
                      let here = elsewhere f k c j jk jc in
                      elim (Bool-cases (heap_parent j == k)) [
                        | inl w ↦
                            let under : heap_parent j ≡ k = ground arith in
                            le_by here (ap (exchanged f k c) under ∙ k_is) (greatest j pj lj under)
                        | inr w ↦
                            let ne : heap_parent j ≢ k = ground arith in
                            le_by here (elsewhere f k c (heap_parent j) ne np) (v.edges j pj lj ne)
                      ]
                ]
          ];
          bridged = λ j pj lj under pp.
              le_by (elsewhere f k c j (omega (arith, pj, under, kc)) (omega (arith, pj, under)))
                (ap (exchanged f k c) e ∙ k_is)
                (le_by refl (sym (ap f under)) (v.edges j pj lj (omega (arith, under, kc))));
        }

    -- The end of the way down.
    pub down-IsHeap :
        (k : ℕ)
        → ((j : ℕ) → 0 < j → j < n → heap_parent j ≡ k → float.le (f j) (f k) ≡ true)
        → IsHeapAbove n f k
        → IsHeap n f
    down-IsHeap k under v j pj lj = elim (Bool-cases (heap_parent j == k)) [
      | inl t ↦ let e : heap_parent j ≡ k = ground arith in le_by refl (ap f e) (under j pj lj e)
      | inr t ↦ v.edges j pj lj (let ne : heap_parent j ≢ k = ground arith in ne)
    ]

  -- A heap with another priority at one place.
  pub changed-IsHeapBut :
      (order : IsOrder float) (n : ℕ) (f g : ℕ → P) (k : ℕ)
      → k < n
      → IsHeap n f
      → ((j : ℕ) → j < n → j ≢ k → g j ≡ f j)
      → IsHeapBut n g k
  changed-IsHeapBut order n f g k lk h same = record {
    edges = λ j pj lj ne np.
        le_by (same j lj ne) (same (heap_parent j) (omega (arith, pj, lj)) np) (h j pj lj);
    bridged = λ j pj lj e pk.
        le_by (same j lj (omega (arith, pj, e)))
          (same (heap_parent k) (omega (arith, pk, lk)) (omega (arith, pk)))
          (order.trans (f j) (f k) (f (heap_parent k)) (le_by refl (sym (ap f e)) (h j pj lj))
            (h k pk lk));
  }

  -- No item of a heap is above the first one.
  pub IsHeap-top :
      (order : IsOrder float) (n : ℕ) (f : ℕ → P) (fuel j : ℕ)
      → j < fuel
      → j < n
      → IsHeap n f
      → float.le (f j) (f 0) ≡ true
  IsHeap-top order n f zero j lf lj h = absurd (omega (arith, lf))
  IsHeap-top order n f (suc fuel) j lf lj h = elim (Bool-cases (j == 0)) [
    | inl z ↦ let first : j ≡ 0 = ground arith in le_by (ap f first) refl (le_refl order (f 0))
    | inr z ↦
        let pj : 0 < j = ground arith in
        order.trans (f j) (f (heap_parent j)) (f 0) (h j pj lj)
          (IsHeap-top order n f fuel (heap_parent j) (omega (arith, pj, lf)) (omega (arith, lj)) h)
  ]
