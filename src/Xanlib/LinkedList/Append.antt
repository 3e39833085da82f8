-- ===== src/Xanlib/LinkedList/Append.antt =====
-- `xanList_append` of xanlib/src/xanlist.c: a list gets one item more at its end.
use cam_alias_checker.Prelude.{
  ℕ, ◌+◌, ◌<◌, ◌≡◌, ◌≢◌, refl, ap, sym, ◌∙◌, true, false, some, [], ◌∷◌, ◌++◌, length-append, arith,
  ◌==◌, if◌then◌else◌,
}
use mathlib.Core.Option.{some-injective}
use cam_alias_checker.Xanlib.LinkedList.Memory.{Ptr, null, Item, item, Memory, write}
use cam_alias_checker.Xanlib.LinkedList.Items.{XanList, buffered, allocate_item}
use cam_alias_checker.Xanlib.LinkedList.Insert.{append, append_first, append_last}
use cam_alias_checker.Xanlib.LinkedList.Shape.{
  Cells, has, has_ptr, last_ptr, IsList, IsSpare-write, IsSpare-cons, IsFresh-write, not_fresh,
}
use cam_alias_checker.Xanlib.LinkedList.Allocate.{CanAllocate, CanCycle, CanFree, allocates}
use cam_alias_checker.Xanlib.LinkedList.Push.{
  at, load-at, store-at, set_next-at, set_prev-at, write_self, write_ne,
}
use cam_alias_checker.Xanlib.LinkedList.Snoc.{
  last_ptr-snoc, has-last_ptr, last_held, IsSpare-snoc, IsChain-snoc,
}

-- The three writes of `xanList_append` behind the last item `t`: to the new item `p`, to `t` and to `p`.
abbrev after_last : Memory → Ptr → ℕ → Item → Ptr → Item → Memory
after_last m p x i t j =
    at (at (at m p (record i { value = x; next = null })) t (record j { next = p })) p
      (item x null t)

append_last-IsList :
    (x : ℕ) (m : Memory) (l : XanList) (p : Ptr) (i : Item) (f : Ptr) (w : ℕ) (ys : Cells)
    (j : Item)
    → IsList m l ((f, w) ∷ ys)
    → p ≢ null
    → m.cell p ≡ some i
    → has p ((f, w) ∷ ys) ≡ false
    → has_ptr p (buffered l) ≡ false
    → m.cell (last_ptr f ys) ≡ some j
    → IsList
        (after_last m p x i (last_ptr f ys) j)
        (record l { last_item = p; len = l.len + 1 })
        ((f, w) ∷ (ys ++ (p, x) ∷ []))
append_last-IsList x m l p i f w ys j v ne holds new out held =
    let t = last_ptr f ys in
    let one = record i { value = x; next = null } in
    let two = record j { next = p } in
    let three = item x null t in
    let h = m.cell in
    let h1 = write p (some one) h in
    let h2 = write t (some two) h1 in
    let ps = m.supply in
    let xs : Cells = (f, w) ∷ ys in
    let within = has-last_ptr f w ys in
    let pt : p ≢ t = λ e. absurd (ground (arith, e, within, new)) in
    let nf = not_fresh h p ps v.fresh (rw holds) in
    let tf = not_fresh h t ps v.fresh (rw held) in
    record {
      chain =
          IsChain-snoc h (write p (some three) h2) p x null f w ys v.chain ne new
            (write_self p (some three) h2)
            (λ a e na.
              let pa : p ≢ a = λ q. absurd (ground (arith, q, e, new)) in
              write_ne p a (some three) h2 pa
              ∙ write_ne t a (some two) h1 (λ q. na (sym q))
              ∙ write_ne p a (some one) h pa)
            (λ k e.
              let same : j ≡ k = some-injective j k (sym held ∙ e) in
              write_ne p t (some three) h2 pt
              ∙ write_self t (some two) h1
              ∙ ap (λ (z : Item). some (record z { next = p })) same);
      first = v.first;
      last = sym (last_ptr-snoc f p x ys);
      len = omega (arith, v.len, length-append ys ((p, x) ∷ []));
      spare =
          IsSpare-snoc (write p (some three) h2) p x xs (buffered l)
            (IsSpare-write h2 p three xs (buffered l) (
              IsSpare-write h1 t two xs (buffered l)
                (IsSpare-write h p one xs (buffered l) v.spare)))
            out;
      fresh =
          IsFresh-write h2 p (some three) ps
            (IsFresh-write h1 t (some two) ps (IsFresh-write h p (some one) ps v.fresh nf) tf) nf;
    }

-- The branch of `xanList_append` for an empty list.
append_first-IsList :
    (x : ℕ) (m : Memory) (l : XanList) (p : Ptr) (i : Item)
    → IsList m l []
    → p ≢ null
    → m.cell p ≡ some i
    → has_ptr p (buffered l) ≡ false
    → IsList
        (at (at m p (record i { value = x; next = null })) p (item x null null))
        (record l { first_item = p; last_item = p; len = l.len + 1 })
        ((p, x) ∷ [])
append_first-IsList x m l p i v ne holds out =
    let one = record i { value = x; next = null } in
    let h = m.cell in
    let nf = not_fresh h p m.supply v.fresh (rw holds) in
    record {
      chain = (ne, write_self p (some (item x null null)) (write p (some one) h), refl, tt);
      first = refl;
      last = refl;
      len = omega (arith, v.len);
      spare =
          IsSpare-cons _ p x [] (buffered l)
            (IsSpare-write _ p (item x null null) [] (buffered l)
              (IsSpare-write h p one [] (buffered l) v.spare))
            out;
      fresh =
          IsFresh-write _ p (some (item x null null)) m.supply
            (IsFresh-write h p (some one) m.supply v.fresh nf) nf;
    }

module _ (uninit : Item) (m : Memory) (l : XanList) (x : ℕ) {p : Ptr} {m1 : Memory} {l1 : XanList}
    {i : Item} (run : allocate_item uninit l m ≡ some ((p, l1), m1)) (ne : p ≢ null)
    (holds : m1.cell p ≡ some i) where
  -- the memory behind the first write
  abbrev begun : Memory
  begun = at m1 p (record i { value = x; next = null })

  append_start : append uninit l x m ≡ (
      if l1.first_item == null
      then append_first uninit p l1 begun
      else append_last uninit p l1 begun)
  unfolding append
  append_start = ground (
    arith,
    run,
    ne,
    load-at m1 p i holds,
    store-at m1 p i holds (record i { value = x; next = null }),
  )

module _ (uninit : Item) (m : Memory) (p : Ptr) (i : Item) (l : XanList)
    (holds : m.cell p ≡ some i) where
  append_first-run :
      l.len ≡ 0
      → append_first uninit p l m
        ≡ some (
          (p, record l { first_item = p; last_item = p; len = l.len + 1 }),
          at m p (record i { prev = null }),
        )
  unfolding append_first
  append_first-run e = ground (arith, set_prev-at m p i holds null)

  append_last-run :
      (t : Ptr) (j : Item)
      → l.last_item ≡ t
      → 0 < l.len
      → t ≢ null
      → m.cell t ≡ some j
      → p ≢ t
      → append_last uninit p l m
        ≡ some (
          (p, record l { last_item = p; len = l.len + 1 }),
          at (at m t (record j { next = p })) p (record i { prev = t }),
        )
  unfolding append_last
  append_last-run t j e pos last held ne = ground (
    arith,
    set_next-at m t j held p,
    set_prev-at (at m t (record j { next = p })) p i
        (write_ne t p (some (record j { next = p })) m.cell (λ q. ne (sym q)) ∙ holds) t,
  )

not_null : (a b : Ptr) → a ≡ b → b ≢ null → (a == null) ≡ false
not_null a b e ne = ground (arith, e, ne)

-- `xanList_append` with what it leaves room for
pub appends :
    (uninit : Item) (m : Memory) (l : XanList) (xs : Cells) (x : ℕ)
    → IsList m l xs
    → CanAllocate m l
    → (p : Ptr) × (m' : Memory) × (l' : XanList) × (append uninit l x m ≡ some ((p, l'), m'))
      × IsList m' l' (xs ++ (p, x) ∷ [])
      × (CanCycle m l → CanFree m' l')
appends uninit m l [] x v c =
    let (p, m1, l1, run, a) = allocates uninit m l [] l.buffer m.supply refl refl v c in
    let one = record a.old { value = x; next = null } in
    let first = a.list.first in
    (
      p,
      at (at m1 p one) p (item x null null),
      record l1 { first_item = p; last_item = p; len = l1.len + 1 },
      append_start uninit m l x run a.not_null a.holds
          ∙ (rw (let e : (l1.first_item == null) ≡ true = ground arith in e) (
              append_first-run uninit (at m1 p one) p one l1 (write_self p (some one) m1.cell)
                a.list.len)),
      append_first-IsList x m1 l1 p a.old a.list a.not_null a.holds a.not_buffered,
      a.room,
    )
appends uninit m l ((f, w) ∷ ys) x v c =
    let (p, m1, l1, run, a) = allocates uninit m l ((f, w) ∷ ys) l.buffer m.supply refl refl v c in
    let one = record a.old { value = x; next = null } in
    let first = a.list.first in
    let ch = a.list.chain in
    let t = last_ptr f ys in
    let (j, held, tn) = last_held m1.cell null f w ys ch in
    let within = has-last_ptr f w ys in
    let out = a.out in
    let pt : p ≢ t = λ e. absurd (ground (arith, e, within, out)) in
    (
      p,
      after_last m1 p x a.old t j,
      record l1 { last_item = p; len = l1.len + 1 },
      append_start uninit m l x run a.not_null a.holds
          ∙ (rw (not_null l1.first_item f first ch.0) (
              append_last-run uninit (at m1 p one) p one l1 (write_self p (some one) m1.cell) t j
                a.list.last (omega (arith, a.list.len)) tn
                (write_ne p t (some one) m1.cell pt ∙ held) pt)),
      append_last-IsList x m1 l1 p a.old f w ys j a.list a.not_null a.holds a.out a.not_buffered
          held,
      a.room,
    )

-- With an item or memory to spare, `xanList_append` ends with a list that has the items from before and
-- then, at a new item, the pointer.
pub append-snoc :
    (uninit : Item) (m : Memory) (l : XanList) (xs : Cells) (x : ℕ)
    → IsList m l xs
    → CanAllocate m l
    → (p : Ptr) × (m' : Memory) × (l' : XanList) × (append uninit l x m ≡ some ((p, l'), m'))
      × IsList m' l' (xs ++ (p, x) ∷ [])
append-snoc uninit m l xs x v c =
    let (p, m', l', run, w, room) = appends uninit m l xs x v c in (p, m', l', run, w)
