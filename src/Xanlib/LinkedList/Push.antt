-- ===== src/Xanlib/LinkedList/Push.antt =====
-- `xanList_insert` of xanlib/src/xanlist.c: a list gets one item more at its front.
use cam_alias_checker.Prelude.{
  ℕ, ◌+◌, ◌<◌, ◌≡◌, ◌≢◌, refl, true, false, Option, some, [], ◌∷◌, arith, ◌==◌, if◌then◌else◌, sym,
  ◌∙◌,
}
use cam_alias_checker.Xanlib.LinkedList.Memory.{
  Ptr, null, Item, item, Memory, write, load, store, set_next, set_prev,
}
use cam_alias_checker.Xanlib.LinkedList.Items.{XanList, buffered, allocate_item}
use cam_alias_checker.Xanlib.LinkedList.Insert.{insert, insert_first, insert_in_front}
use cam_alias_checker.Xanlib.LinkedList.Shape.{
  Cell, Cells, has, has_ptr, head_ptr, last_ptr, IsChain, IsList, IsChain-write, IsSpare-write,
  IsSpare-cons, IsFresh-write, not_fresh,
}
use cam_alias_checker.Xanlib.LinkedList.Allocate.{CanAllocate, CanCycle, CanFree, allocates}

-- memory with an item written
abbrev pub at : Memory → Ptr → Item → Memory
at m p i = record m { cell = write p (some i) m.cell }

module _ (m : Memory) (p : Ptr) (i : Item) (holds : m.cell p ≡ some i) where
  pub store-at : (j : Item) → store p j m ≡ some (tt, at m p j)
  unfolding store
  store-at j = ground (arith, holds)

  pub load-at : load p m ≡ some (i, m)
  unfolding load
  load-at = ground (arith, holds)

  pub set_next-at : (q : Ptr) → set_next p q m ≡ some (tt, at m p (record i { next = q }))
  unfolding set_next
  set_next-at q = ground (arith, holds)

  pub set_prev-at : (q : Ptr) → set_prev p q m ≡ some (tt, at m p (record i { prev = q }))
  unfolding set_prev
  set_prev-at q = ground (arith, holds)

pub write_self : (p : Ptr) (o : Option Item) (h : Cell) → write p o h p ≡ o
write_self p o h = ground arith

pub write_ne : (p q : Ptr) (o : Option Item) (h : Cell) → p ≢ q → write p o h q ≡ h q
write_ne p q o h ne = ground arith

-- The branch of `xanList_insert` for an empty list: the memory behind it, and its list.
insert_first-IsList :
    (x : ℕ) (m m' : Memory) (l' : XanList) (p : Ptr) (i : Item)
    → IsList m' l' []
    → p ≢ null
    → m'.cell p ≡ some i
    → has_ptr p (buffered l') ≡ false
    → IsList
        (at (at m' p (record i { value = x; prev = null })) p (item x null null))
        (record l' { first_item = p; last_item = p; len = l'.len + 1 })
        ((p, x) ∷ [])
insert_first-IsList x m m' l' p i v ne holds out =
    let one = record i { value = x; prev = null } in
    let h = m'.cell in
    let nf = not_fresh h p m'.supply v.fresh (rw holds) in
    record {
      chain = (ne, write_self p (some (item x null null)) (write p (some one) h), refl, tt);
      first = refl;
      last = refl;
      len = omega (arith, v.len);
      spare =
          IsSpare-cons _ p x [] (buffered l')
            (IsSpare-write _ p (item x null null) [] (buffered l')
              (IsSpare-write h p one [] (buffered l') v.spare))
            out;
      fresh =
          IsFresh-write _ p (some (item x null null)) m'.supply
            (IsFresh-write h p (some one) m'.supply v.fresh nf) nf;
    }

-- The branch for a list whose first item is `f`: three writes, to the new item twice and to `f`.
abbrev before_first : Memory → Ptr → ℕ → Item → Ptr → ℕ → Ptr → Memory
before_first m' p x i f v n =
    at (at (at m' p (record i { value = x; prev = null })) p (item x f null)) f (item v n p)

insert_before_first-IsList :
    (x : ℕ) (m' : Memory) (l' : XanList) (p : Ptr) (i : Item) (f : Ptr) (v : ℕ) (ys : Cells)
    → IsList m' l' ((f, v) ∷ ys)
    → p ≢ null
    → m'.cell p ≡ some i
    → has p ((f, v) ∷ ys) ≡ false
    → has_ptr p (buffered l') ≡ false
    → IsList
        (before_first m' p x i f v (head_ptr ys))
        (record l' { first_item = p; len = l'.len + 1 })
        ((p, x) ∷ (f, v) ∷ ys)
insert_before_first-IsList x m' l' p i f v ys w ne holds new out =
    let one = record i { value = x; prev = null } in
    let two = item x f null in
    let three = item v (head_ptr ys) p in
    let h = m'.cell in
    let h1 = write p (some one) h in
    let h2 = write p (some two) h1 in
    let c = w.chain in
    let ps = m'.supply in
    let nf = not_fresh h p ps w.fresh (rw holds) in
    let ff = not_fresh h f ps w.fresh (rw c.1) in
    let rest =
      IsChain-write h2 f (some three) f ys
        (IsChain-write h1 p (some two) f ys (IsChain-write h p (some one) f ys c.3 (ground arith))
          (ground arith))
        c.2 in
    record {
      chain = (ne, ground arith, new, (c.0, write_self f (some three) h2, c.2, rest));
      first = refl;
      last = w.last;
      len = omega (arith, w.len);
      spare =
          IsSpare-cons _ p x ((f, v) ∷ ys) (buffered l')
            (IsSpare-write h2 f three ((f, v) ∷ ys) (buffered l') (
              IsSpare-write h1 p two ((f, v) ∷ ys) (buffered l')
                (IsSpare-write h p one ((f, v) ∷ ys) (buffered l') w.spare)))
            out;
      fresh =
          IsFresh-write h2 f (some three) ps
            (IsFresh-write h1 p (some two) ps (IsFresh-write h p (some one) ps w.fresh nf) nf) ff;
    }

module _ (uninit : Item) (m : Memory) (l : XanList) (x : ℕ) {p : Ptr} {m1 : Memory} {l1 : XanList}
    {i : Item} (run : allocate_item uninit l m ≡ some ((p, l1), m1)) (ne : p ≢ null)
    (holds : m1.cell p ≡ some i) where
  -- the memory behind the first write
  abbrev begun : Memory
  begun = at m1 p (record i { value = x; prev = null })

  insert_start : insert uninit l x m ≡ (
      if l1.first_item == null
      then insert_first uninit p l1 begun
      else insert_in_front uninit p l1 begun)
  unfolding insert
  insert_start = ground (
    arith,
    run,
    ne,
    load-at m1 p i holds,
    store-at m1 p i holds (record i { value = x; prev = null }),
  )

module _ (uninit : Item) (m : Memory) (p : Ptr) (i : Item) (l : XanList)
    (holds : m.cell p ≡ some i) where
  insert_first-run :
      l.len ≡ 0
      → insert_first uninit p l m
        ≡ some (
          (p, record l { first_item = p; last_item = p; len = l.len + 1 }),
          at m p (record i { next = null }),
        )
  unfolding insert_first
  insert_first-run e = ground (arith, set_next-at m p i holds null)

  insert_in_front-run :
      (f : Ptr) (j : Item)
      → l.first_item ≡ f
      → 0 < l.len
      → l.last_item ≢ null
      → m.cell f ≡ some j
      → p ≢ f
      → insert_in_front uninit p l m
        ≡ some (
          (p, record l { first_item = p; len = l.len + 1 }),
          at (at m p (record i { next = f })) f (record j { prev = p }),
        )
  unfolding insert_in_front
  insert_in_front-run f j e pos last first ne = ground (
    arith,
    set_next-at m p i holds f,
    set_prev-at (at m p (record i { next = f })) f j
        (write_ne p f (some (record i { next = f })) m.cell ne ∙ first) p,
  )

last_ptr-ne : (h : Cell) (q : Ptr) (xs : Cells) → q ≢ null → IsChain h q xs → last_ptr q xs ≢ null
last_ptr-ne h q [] ne c = ne
last_ptr-ne h q ((p, v) ∷ xs) ne c = last_ptr-ne h p xs c.0 c.3

-- `xanList_insert` with what it leaves room for
pub inserts :
    (uninit : Item) (m : Memory) (l : XanList) (xs : Cells) (x : ℕ)
    → IsList m l xs
    → CanAllocate m l
    → (p : Ptr) × (m' : Memory) × (l' : XanList) × (insert uninit l x m ≡ some ((p, l'), m'))
      × IsList m' l' ((p, x) ∷ xs)
      × (CanCycle m l → CanFree m' l')
inserts uninit m l [] x v c =
    let (p, m1, l1, run, a) = allocates uninit m l [] l.buffer m.supply refl refl v c in
    let one = record a.old { value = x; prev = null } in
    let first = a.list.first in
    (
      p,
      at (at m1 p one) p (item x null null),
      record l1 { first_item = p; last_item = p; len = l1.len + 1 },
      insert_start uninit m l x run a.not_null a.holds
          ∙ (rw (let e : (l1.first_item == null) ≡ true = ground arith in e) (
              insert_first-run uninit (at m1 p one) p one l1 (write_self p (some one) m1.cell)
                a.list.len)),
      insert_first-IsList x m m1 l1 p a.old a.list a.not_null a.holds a.not_buffered,
      a.room,
    )
inserts uninit m l ((f, w) ∷ ys) x v c =
    let (p, m1, l1, run, a) = allocates uninit m l ((f, w) ∷ ys) l.buffer m.supply refl refl v c in
    let one = record a.old { value = x; prev = null } in
    let first = a.list.first in
    let ch = a.list.chain in
    let pf : p ≢ f = ground (arith, a.out) in
    (
      p,
      before_first m1 p x a.old f w (head_ptr ys),
      record l1 { first_item = p; len = l1.len + 1 },
      insert_start uninit m l x run a.not_null a.holds
          ∙ (rw (let e : (l1.first_item == null) ≡ false = ground (arith, ch.0) in e) (
              insert_in_front-run uninit (at m1 p one) p one l1 (write_self p (some one) m1.cell) f
                (item w (head_ptr ys) null) first (omega (arith, a.list.len))
                (λ e. last_ptr-ne m1.cell f ys ch.0 ch.3 (sym a.list.last ∙ e))
                (write_ne p f (some one) m1.cell pf ∙ ch.1) pf)),
      insert_before_first-IsList x m1 l1 p a.old f w ys a.list a.not_null a.holds a.out
          a.not_buffered,
      a.room,
    )

-- With an item or memory to spare, `xanList_insert` ends with a list that has the pointer at its
-- front, at a new item, and then the items from before.
pub insert-cons :
    (uninit : Item) (m : Memory) (l : XanList) (xs : Cells) (x : ℕ)
    → IsList m l xs
    → CanAllocate m l
    → (p : Ptr) × (m' : Memory) × (l' : XanList) × (insert uninit l x m ≡ some ((p, l'), m'))
      × IsList m' l' ((p, x) ∷ xs)
insert-cons uninit m l xs x v c =
    let (p, m', l', run, w, room) = inserts uninit m l xs x v c in (p, m', l', run, w)
