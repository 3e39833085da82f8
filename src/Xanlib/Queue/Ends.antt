-- ===== src/Xanlib/Queue/Ends.antt =====
-- The array of a queue with an item more, or without its last one.
use cam_alias_checker.Prelude.{
  ℕ, suc, ◌+◌, ◌-◌, ◌/◌, ◌≤◌, ◌<◌, ◌≡◌, ap, sym, subst, ◌∙◌, true, List, [], ◌∷◌, ◌++◌, length,
  length-append, length-take, get_or-take, get_or-append, get_or-last, take, take-append-last, ◌==◌,
  arith, Bool-cases, inl, inr,
}
use mathlib.Core.List.{Perm, map-append, perm_append_singleton}
use cam_alias_checker.Xanlib.Queue.{Priorities, XanQueueItem}
use cam_alias_checker.Xanlib.Queue.Order.{IsHeap}
use cam_alias_checker.Xanlib.Queue.Array.{content, contents, nowhere, item, key, IsPlaced}

module _ {P : Type 0} ⦃float : Priorities P⦄ where
  -- An item more at the end.
  pub length_more :
      (a : List (XanQueueItem P)) (x : XanQueueItem P) → length (a ++ x ∷ []) ≡ length a + 1
  length_more a x = length-append a (x ∷ [])

  pub more-IsPlaced :
      (a : List (XanQueueItem P)) (x : XanQueueItem P)
      → IsPlaced a
      → x.position ≡ length a
      → IsPlaced (a ++ x ∷ [])
  more-IsPlaced a x v at i lt = elim (Bool-cases (i == length a)) [
    | inl t ↦
        let same : i ≡ length a = ground arith in
        ap (λ j. (item (a ++ x ∷ []) j).position) same
        ∙ ap (λ y. y.position) (get_or-last a x nowhere)
        ∙ at
        ∙ sym same
    | inr t ↦
        let more = length_more a x in
        let li : i < length a = ground (arith, lt, more) in
        ap (λ y. y.position) (get_or-append a (x ∷ []) i nowhere li) ∙ v i li
  ]

  -- The array of the queue without its last item.
  pub fewer-IsPlaced :
      (n : ℕ) (a : List (XanQueueItem P)) → n ≤ length a → IsPlaced a → IsPlaced (take n a)
  fewer-IsPlaced n a le v i lt =
      let size = length-take n a in
      ap (λ y. y.position) (get_or-take n a i nowhere (omega (arith, size, lt, le)))
      ∙ v i (omega (arith, size, lt, le))

  pub fewer-Perm :
      (n : ℕ) (a : List (XanQueueItem P))
      → length a ≡ suc n
      → Perm (contents a) (content (item a n) ∷ contents (take n a))
  fewer-Perm n a e =
      let c = contents (take n a) in
      let x = content (item a n) in
      subst (λ z. Perm z (x ∷ c))
        (sym (map-append content (take n a) (item a n ∷ []))
          ∙ ap contents (take-append-last n a nowhere e))
        (perm_append_singleton x c)

  pub fewer-IsHeap :
      (n : ℕ) (a : List (XanQueueItem P))
      → n ≤ length a
      → IsHeap (length a) (key a)
      → IsHeap (length (take n a)) (key (take n a))
  fewer-IsHeap n a le h j pj lj =
      let size = length-take n a in
      let ln : j < n = omega (arith, size, le, lj) in
      subst (λ x. float.le x (key (take n a) ((j - 1) / 2)) ≡ true)
        (sym (ap (λ y. y.priority) (get_or-take n a j nowhere ln)))
        (subst (λ x. float.le (key a j) x ≡ true)
          (sym
            (ap (λ y. y.priority) (get_or-take n a ((j - 1) / 2) nowhere (omega (arith, pj, ln)))))
          (h j pj (omega (arith, ln, le))))
