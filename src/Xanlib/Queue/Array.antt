-- ===== src/Xanlib/Queue/Array.antt =====
-- The array of a queue: the priorities, the positions, and the items it has in whatever order.
use cam_alias_checker.Prelude.{
  ℕ, zero, suc, ◌<◌, ◌≡◌, ◌≢◌, refl, ap, sym, ◌∙◌, true, false, some, List, [], ◌∷◌, map, length,
  length-set, length-map, get_or, set, get_or-set, get_elem?-get_or, exchange-Perm, subst, ◌==◌,
  if◌then◌else◌, arith, Bool-cases, inl, inr,
}
use mathlib.Core.List.{Perm}
use mathlib.Core.Path.{fun_ext}
use cam_alias_checker.Xanlib.Queue.{Priorities, XanQueueItem, moved, heap_swap_item, is_at}
use cam_alias_checker.Xanlib.Queue.Order.{exchanged}

-- An item without its position: its address, its priority and its element.
abbrev pub Content : Type 0 → Type 0
Content P = ℕ × P × ℕ

module _ {P : Type 0} where
  abbrev pub content : XanQueueItem P → Content P
  content x = (x.address, x.priority, x.element)

  abbrev pub contents : List (XanQueueItem P) → List (Content P)
  contents a = map content a

module _ {P : Type 0} ⦃float : Priorities P⦄ where
  -- what stands for an item out of bounds
  abbrev pub nowhere : XanQueueItem P
  nowhere = record { address = 0; priority = float.minus_one; position = 0; element = 0 }

  abbrev pub item : List (XanQueueItem P) → ℕ → XanQueueItem P
  item a i = get_or a i nowhere

  abbrev pub key : List (XanQueueItem P) → ℕ → P
  key a i = (item a i).priority

  -- Each item knows its position.
  abbrev pub IsPlaced : List (XanQueueItem P) → Type 0
  IsPlaced a = (i : ℕ) → i < length a → (item a i).position ≡ i

  abbrev pub swapped : List (XanQueueItem P) → ℕ → ℕ → List (XanQueueItem P)
  swapped a i j = set (set a j (moved (item a i) j)) i (moved (item a j) i)

  pub is_at-IsPlaced :
      (a : List (XanQueueItem P)) (i : ℕ) → IsPlaced a → i < length a → is_at a i ≡ true
  is_at-IsPlaced a i v lt =
      let at = v i lt in rw (get_elem?-get_or a i nowhere lt) (ground (arith, at))

  pub contents-set :
      (a : List (XanQueueItem P)) (i : ℕ) (x : XanQueueItem P)
      → contents (set a i x) ≡ set (contents a) i (content x)
  contents-set [] i x = refl
  contents-set (y ∷ a) zero x = refl
  contents-set (y ∷ a) (suc i) x = ap (λ z. content y ∷ z) (contents-set a i x)

  pub get_or-contents :
      (a : List (XanQueueItem P)) (i : ℕ)
      → get_or (contents a) i (content nowhere) ≡ content (item a i)
  get_or-contents [] i = refl
  get_or-contents (y ∷ a) zero = refl
  get_or-contents (y ∷ a) (suc i) = get_or-contents a i

  module _ (a : List (XanQueueItem P)) (i j : ℕ) (li : i < length a) (lj : j < length a) where
    pub heap_swap_item-swapped : heap_swap_item a i j ≡ some (swapped a i j)
    unfolding heap_swap_item
    heap_swap_item-swapped =
        rw (get_elem?-get_or a i nowhere li, get_elem?-get_or a j nowhere lj) refl

    pub length-swapped : length (swapped a i j) ≡ length a
    length-swapped =
        length-set (set a j (moved (item a i) j)) i (moved (item a j) i)
        ∙ length-set a j (moved (item a i) j)

    pub item-swapped :
        (c : ℕ)
        → item (swapped a i j) c
          ≡ (if i == c then moved (item a j) i else if j == c then moved (item a i) j else item a c)
    item-swapped c =
        let b = set a j (moved (item a i) j) in
        let lb : i < length b = omega (arith, length-set a j (moved (item a i) j)) in
        get_or-set b i c (moved (item a j) i) nowhere lb
        ∙ ap (λ z. if i == c then moved (item a j) i else z)
            (get_or-set a j c (moved (item a i) j) nowhere lj)

    pub key-swapped : i ≢ j → key (swapped a i j) ≡ exchanged (key a) i j
    key-swapped ne = fun_ext λ c.
        ap (λ x. x.priority) (item-swapped c) ∙ elim (Bool-cases (i == c)) [
          | inl p ↦
              let e : (c == i) ≡ true = ground arith in
              let r : (c == j) ≡ false = ground arith in rw (p, e, r) refl
          | inr p ↦
              let e : (c == i) ≡ false = ground arith in
              elim (Bool-cases (j == c)) [
                | inl q ↦ (let r : (c == j) ≡ true = ground arith in rw (p, q, r) refl)
                | inr q ↦ (let r : (c == j) ≡ false = ground arith in rw (p, q, r, e) refl)
              ]
        ]

    pub swapped-IsPlaced : IsPlaced a → IsPlaced (swapped a i j)
    swapped-IsPlaced v c lc =
        let size = length-swapped in
        ap (λ x. x.position) (item-swapped c) ∙ elim (Bool-cases (i == c)) [
          | inl p ↦ rw p (ground arith)
          | inr p ↦ elim (Bool-cases (j == c)) [
            | inl q ↦ rw (p, q) (ground arith)
            | inr q ↦ rw (p, q) (v c (omega (arith, size, lc)))
          ]
        ]

    pub swapped-Perm : Perm (contents (swapped a i j)) (contents a)
    swapped-Perm =
        let c = contents a in
        let d = content nowhere in
        let as_set : contents (swapped a i j) ≡ set (set c j (get_or c i d)) i (get_or c j d) =
          contents-set (set a j (moved (item a i) j)) i (moved (item a j) i)
          ∙ ap (λ z. set z i (content (item a j))) (contents-set a j (moved (item a i) j))
          ∙ ap (λ z. set (set c j z) i (content (item a j))) (sym (get_or-contents a i))
          ∙ ap (λ z. set (set c j (get_or c i d)) i z) (sym (get_or-contents a j)) in
        let size : length c ≡ length a = length-map a content in
        subst (λ z. Perm z c) (sym as_set)
          (exchange-Perm c i j d (omega (arith, size, li)) (omega (arith, size, lj)))
