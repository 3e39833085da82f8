-- ===== src/Xanlib/LinkedList/Pop.antt =====
-- `internal_freeItem`, and `xanList_deleteItem` on the first item of a list.
use cam_alias_checker.Prelude.{
  ℕ, suc, ◌-◌, ◌≡◌, ◌≢◌, refl, true, false, ap, Option, none, some, List, [], ◌∷◌, arith, ◌==◌,
  length, Bool-cases, inl, inr, ◌∙◌,
}
use cam_alias_checker.Xanlib.LinkedList.Memory.{Ptr, null, Item, item, Memory, write, alloc_array}
use cam_alias_checker.Xanlib.LinkedList.Items.{
  XanList, buffered, with_buffer, with_buffer_of, free_item,
}
use cam_alias_checker.Xanlib.LinkedList.Move.{set_prev_if}
use cam_alias_checker.Xanlib.LinkedList.Remove.{unlink_first, unlink, delete_item}
use cam_alias_checker.Xanlib.LinkedList.Shape.{
  Cells, head_ptr, last_ptr, IsChain, IsSpare, IsFresh, IsList, IsChain-write, IsSpare-write,
  IsFresh-write, not_fresh, IsSpare-write_other, IsSpare-tail,
}
use cam_alias_checker.Xanlib.LinkedList.Allocate.{CanFree}
use cam_alias_checker.Xanlib.LinkedList.Push.{at, load-at, set_prev-at, write_ne, write_self}
use cam_alias_checker.Xanlib.LinkedList.Find.{address_of_first, find-address_of}

-- What `internal_freeItem` leaves of a list whose first item `f` it has freed: `c` stands there now.
pub record Freed (m : Memory) (l : XanList) (f : Ptr) (ys : Cells) (m' : Memory) (l' : XanList)
    : Type 0 where
  pub cleared : Option Item
  pub left : List Ptr
  pub memory : m' ≡ record { cell = write f cleared m.cell; supply = left }
  pub spare : IsSpare (write f cleared m.cell) ys (buffered l')
  pub fresh : IsFresh (write f cleared m.cell) left
  pub same_len : l'.len ≡ l.len
  pub same_first : l'.first_item ≡ l.first_item
  pub same_last : l'.last_item ≡ l.last_item

-- What the first step of `internal_freeItem` leaves: a list with a buffer, and the pointers that the
-- allocation function will still return.
record Buffered (m : Memory) (l l' : XanList) (left : List Ptr) : Type 0 where
  fresh : IsFresh m.cell left
  same : buffered l' ≡ buffered l
  same_len : l'.len ≡ l.len
  same_first : l'.first_item ≡ l.first_item
  same_last : l'.last_item ≡ l.last_item

buffers :
    (m : Memory) (l : XanList) (b : Option (List Ptr)) (ps : List Ptr)
    → l.buffer ≡ b
    → m.supply ≡ ps
    → IsFresh m.cell ps
    → CanFree m l
    → (l' : XanList) × (left : List Ptr) × (with_buffer l m ≡ some (l', record m { supply = left }))
      × Buffered m l l' left
unfolding with_buffer
buffers m l none [] e f fr c = absurd (ground (arith, e, f, c))
buffers m l none (p ∷ ps) e f fr c = (
  record l { buffer = some []; buffer_size = 4 },
  ps,
  rw (e, alloc_array) (rw f refl),
  record { fresh = fr.3; same = rw e refl; same_len = refl; same_first = refl; same_last = refl },
)
buffers m l (some bs) ps e f fr c = (
  l,
  ps,
  ap (λ z. with_buffer_of z l m) e ∙ ap (λ z. some (l, record m { supply = z })) f,
  record { fresh = fr; same = refl; same_len = refl; same_first = refl; same_last = refl },
)

module _ (m m1 : Memory) (l l1 : XanList) (f : Ptr) (i : Item)
    (run : with_buffer l m ≡ some (l1, m1)) where
  free_full :
      (length (buffered l1) == l1.buffer_size) ≡ true
      → m1.cell f ≡ some i
      → free_item l f m ≡ some (l1, record m1 { cell = write f none m1.cell })
  unfolding free_item
  free_full e holds = ground (arith, run, e, holds)

  free_kept :
      (length (buffered l1) == l1.buffer_size) ≡ false
      → m1.cell f ≡ some i
      → free_item l f m
        ≡ some (record l1 { buffer = some (f ∷ buffered l1) }, at m1 f (item 0 null null))
  unfolding free_item
  free_kept e holds = ground (arith, run, e, holds)

frees :
    (m : Memory) (l : XanList) (f : Ptr) (w : ℕ) (ys : Cells)
    → IsChain m.cell null ((f, w) ∷ ys)
    → IsSpare m.cell ((f, w) ∷ ys) (buffered l)
    → IsFresh m.cell m.supply
    → CanFree m l
    → (m' : Memory) × (l' : XanList) × (free_item l f m ≡ some (l', m')) × Freed m l f ys m' l'
unfolding free_item
frees m l f w ys ch sp fr c =
    let (l1, left, run, d) = buffers m l l.buffer m.supply refl refl fr c in
    let m1 : Memory = record m { supply = left } in
    let t = IsSpare-tail m.cell f w ys (buffered l1) (rw d.same sp) in
    let nf = not_fresh m.cell f left d.fresh (rw ch.1) in
    elim (Bool-cases (length (buffered l1) == l1.buffer_size)) [
      | inl e ↦ (
        record m1 { cell = write f none m.cell },
        l1,
        free_full m m1 l l1 f (item w (head_ptr ys) null) run e ch.1,
        record {
          cleared = none;
          left = left;
          memory = refl;
          spare = IsSpare-write_other m.cell f none ys (buffered l1) t.0 t.1;
          fresh = IsFresh-write m.cell f none left d.fresh nf;
          same_len = d.same_len;
          same_first = d.same_first;
          same_last = d.same_last;
        },
      )
      | inr e ↦ (
        at m1 f (item 0 null null),
        record l1 { buffer = some (f ∷ buffered l1) },
        free_kept m m1 l l1 f (item w (head_ptr ys) null) run e ch.1,
        record {
          cleared = some (item 0 null null);
          left = left;
          memory = refl;
          spare = (
            ch.0,
            ground arith,
            ch.2,
            t.1,
            IsSpare-write m.cell f (item 0 null null) ys (buffered l1) t.0,
          );
          fresh = IsFresh-write m.cell f (some (item 0 null null)) left d.fresh nf;
          same_len = d.same_len;
          same_first = d.same_first;
          same_last = d.same_last;
        },
      )
    ]

-- A list without its first item, but for the field `last_item`.
pub record Shorter (l : XanList) (ys : Cells) (m' : Memory) (l' : XanList) : Type 0 where
  pub chain : IsChain m'.cell null ys
  pub spare : IsSpare m'.cell ys (buffered l')
  pub fresh : IsFresh m'.cell m'.supply
  pub first : l'.first_item ≡ head_ptr ys
  pub len : l'.len ≡ l.len - 1
  pub same_last : l'.last_item ≡ l.last_item

unlink_first-Shorter :
    (m : Memory) (l : XanList) (f : Ptr) (w : ℕ) (ys : Cells)
    → l.first_item ≡ f
    → IsChain m.cell null ((f, w) ∷ ys)
    → IsSpare m.cell ((f, w) ∷ ys) (buffered l)
    → IsFresh m.cell m.supply
    → CanFree m l
    → (m' : Memory) × (l' : XanList) × (unlink_first l f (item w (head_ptr ys) null) m
        ≡ some (l', m'))
      × Shorter l ys m' l'
unfolding unlink_first set_prev_if
unlink_first-Shorter m l f w [] e ch sp fr room =
    let (m1, l1, run, d) = frees m l f w [] ch sp fr room in
    (
      m1,
      record l1 { first_item = null; len = l1.len - 1 },
      ground (arith, run),
      record {
        chain = tt;
        spare = rw d.memory d.spare;
        fresh = rw d.memory d.fresh;
        first = refl;
        len = omega (arith, d.same_len);
        same_last = d.same_last;
      },
    )
unlink_first-Shorter m l f w ((g, v) ∷ zs) e ch sp fr room =
    let (m1, l1, run, d) = frees m l f w ((g, v) ∷ zs) ch sp fr room in
    let h = write f d.cleared m.cell in
    let m2 : Memory = record { cell = h; supply = d.left } in
    let c = ch.3 in
    let fg : f ≢ g = ground (arith, ch.2) in
    let held = write_ne f g d.cleared m.cell fg ∙ c.1 in
    let j = item v (head_ptr zs) null in
    (
      at m2 g j,
      record l1 { first_item = g; len = l1.len - 1 },
      ground (arith, run, d.memory, c.0, set_prev-at m2 g (item v (head_ptr zs) f) held null),
      record {
        chain = (
          c.0,
          write_self g (some j) h,
          c.2,
          IsChain-write h g (some j) g zs
              (IsChain-write m.cell f d.cleared g zs c.3 (ground (arith, ch.2))) c.2,
        );
        spare = IsSpare-write h g j ((g, v) ∷ zs) (buffered l1) d.spare;
        fresh = IsFresh-write h g (some j) d.left d.fresh (not_fresh h g d.left d.fresh (rw held));
        first = refl;
        len = omega (arith, d.same_len);
        same_last = d.same_last;
      },
    )

IsList-tail :
    (m' : Memory) (l l1 l' : XanList) (f : Ptr) (w : ℕ) (ys : Cells)
    → l.len ≡ suc (length ys)
    → l1.len ≡ l.len
    → l1.last_item ≡ last_ptr null ys
    → Shorter l1 ys m' l'
    → IsList m' l' ys
IsList-tail m' l l1 l' f w ys len same last s = record {
  chain = s.chain;
  first = s.first;
  last = s.same_last ∙ last;
  len = omega (arith, s.len);
  spare = s.spare;
  fresh = s.fresh;
}

unlink-tail :
    (m : Memory) (l : XanList) (f : Ptr) (w : ℕ) (ys : Cells)
    → IsList m l ((f, w) ∷ ys)
    → CanFree m l
    → (m' : Memory) × (l' : XanList) × (unlink l f (item w (head_ptr ys) null) m ≡ some (l', m'))
      × IsList m' l' ys
unfolding unlink
unlink-tail m l f w [] v room =
    let l1 = record l { last_item = null } in
    let (m', l', run, s) = unlink_first-Shorter m l1 f w [] v.first v.chain v.spare v.fresh room in
    (m', l', ground (arith, v.last, run), IsList-tail m' l l1 l' f w [] v.len refl refl s)
unlink-tail m l f w ((g, u) ∷ zs) v room =
    let (m', l', run, s) =
      unlink_first-Shorter m l f w ((g, u) ∷ zs) v.first v.chain v.spare v.fresh room in
    (
      m',
      l',
      ground (arith, v.chain, run),
      IsList-tail m' l l l' f w ((g, u) ∷ zs) v.len refl v.last s,
    )

-- In a list with items that has a buffer of free items or memory for one, `xanList_deleteItem` of the
-- first item ends with the list of the others.
pub delete_item-tail :
    (m : Memory) (l : XanList) (f : Ptr) (w : ℕ) (ys : Cells)
    → IsList m l ((f, w) ∷ ys)
    → CanFree m l
    → (m' : Memory) × (l' : XanList) × (delete_item l f m ≡ some (l', m')) × IsList m' l' ys
unfolding delete_item
delete_item-tail m l f w ys v room =
    let (m', l', run, t) = unlink-tail m l f w ys v room in
    let c = v.chain in
    (
      m',
      l',
      ground (
        arith,
        c.0,
        load-at m f (item w (head_ptr ys) null) c.1,
        find-address_of m l ((f, w) ∷ ys) w v,
        address_of_first f w ys,
        run,
      ),
      t,
    )
