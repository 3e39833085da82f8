-- ===== src/Xanlib/Pipe/Fifo.antt =====
-- The pipe of xanlib/src/xanpipe.c against a sequence of pointers, the next one first.
use cam_alias_checker.Prelude.{ℕ, ◌≡◌, ◌≢◌, refl, ap, ◌∙◌, Option, some, List, [], ◌∷◌, ◌++◌, arith}
use cam_alias_checker.Xanlib.LinkedList.Memory.{Ptr, null, Item, item, Memory, Cmd, ◌>>=◌}
use cam_alias_checker.Xanlib.LinkedList.Shape.{Cell, Cells, head_ptr, IsChain, IsList}
use cam_alias_checker.Xanlib.LinkedList.Allocate.{
  CanAllocate, CanCycle, CanFree, CanCycle-CanAllocate,
}
use cam_alias_checker.Xanlib.LinkedList.Push.{insert-cons, load-at}
use cam_alias_checker.Xanlib.LinkedList.Append.{appends}
use cam_alias_checker.Xanlib.LinkedList.Pop.{delete_item-tail}
use cam_alias_checker.Xanlib.Stack.Lifo.{values}
use cam_alias_checker.Xanlib.Pipe.{XanPipe, take_first, get, check_data, put, put_at_end}
use cam_alias_checker.Xanlib.Pipe.Sync.{held, sync_put, sync_get}
use cam_alias_checker.Xanlib.Stack.Sync.{call}

-- The pipe's list holds the pointers `vs`.
pub record IsPipe (m : Memory) (s : XanPipe) (vs : List ℕ) : Type 0 where
  pub cells : Cells
  pub list : IsList m s.items cells
  pub holds : values cells ≡ vs

values-snoc : (xs : Cells) (p : Ptr) (x : ℕ) → values (xs ++ (p, x) ∷ []) ≡ values xs ++ x ∷ []
values-snoc [] p x = refl
values-snoc ((f, w) ∷ ys) p x = ap (λ z. w ∷ z) (values-snoc ys p x)

-- what the last item of a chain holds
chain-last :
    (h : Cell) (q p : Ptr) (x : ℕ) (xs : Cells)
    → IsChain h q (xs ++ (p, x) ∷ [])
    → (p ≢ null) × (i : Item) × (h p ≡ some i) × (i.value ≡ x)
chain-last h q p x [] c = (c.0, item x null q, c.1, refl)
chain-last h q p x ((f, w) ∷ ys) c = chain-last h f p x ys c.3

check_data-runs :
    (m : Memory) (p : Ptr) (x : ℕ) (i : Item)
    → p ≢ null
    → m.cell p ≡ some i
    → i.value ≡ x
    → check_data p x m ≡ some (tt, m)
unfolding check_data
check_data-runs m p x i ne holds e = ground (arith, ne, load-at m p i holds, e)

-- With an item or memory to spare, `xanPipe_put` ends with the pointer behind the old ones.
pub put-IsPipe :
    (uninit : Item) (m : Memory) (s : XanPipe) (vs : List ℕ) (x : ℕ)
    → IsPipe m s vs
    → CanAllocate m s.items
    → (p : Ptr) × (m' : Memory) × (s' : XanPipe) × (put uninit s x m ≡ some ((p, s'), m'))
      × IsPipe m' s' (vs ++ x ∷ [])
      × (CanCycle m s.items → CanFree m' s'.items)
unfolding put
put-IsPipe uninit m s vs x v c =
    let (p, m', l', run, w, room) = appends uninit m s.items v.cells x v.list c in
    let (ne, i, holds, e) = chain-last m'.cell null p x v.cells w.chain in
    (
      p,
      m',
      record { items = l' },
      ground (arith, run, check_data-runs m' p x i ne holds e),
      record {
        cells = v.cells ++ (p, x) ∷ [];
        list = w;
        holds = values-snoc v.cells p x ∙ ap (λ z. z ++ x ∷ []) v.holds;
      },
      room,
    )

-- With an item or memory to spare, `xanPipe_putAtEnd` ends with the pointer in front of the old ones.
pub put_at_end-IsPipe :
    (uninit : Item) (m : Memory) (s : XanPipe) (vs : List ℕ) (x : ℕ)
    → x ≢ null
    → IsPipe m s vs
    → CanAllocate m s.items
    → (p : Ptr) × (m' : Memory) × (s' : XanPipe) × (put_at_end uninit s x m ≡ some ((p, s'), m'))
      × IsPipe m' s' (x ∷ vs)
unfolding put_at_end
put_at_end-IsPipe uninit m s vs x nx v c =
    let (p, m', l', run, w) = insert-cons uninit m s.items v.cells x v.list c in
    let ch = w.chain in
    let checked = check_data-runs m' p x (item x (head_ptr v.cells) null) ch.0 ch.1 refl in
    (
      p,
      m',
      record { items = l' },
      ground (arith, run, checked, nx),
      record { cells = (p, x) ∷ v.cells; list = w; holds = ap (λ z. x ∷ z) v.holds },
    )

get_cells :
    (m : Memory) (s : XanPipe) (f : Ptr) (w : ℕ) (ys : Cells)
    → IsList m s.items ((f, w) ∷ ys)
    → CanFree m s.items
    → (m' : Memory) × (s' : XanPipe) × (get s m ≡ some ((w, s'), m')) × IsPipe m' s' (values ys)
unfolding get take_first
get_cells m s f w ys v c =
    let (m', l', run, t) = delete_item-tail m s.items f w ys v c in
    (
      m',
      record { items = l' },
      ground (
        arith,
        v.first,
        v.len,
        v.chain.0,
        load-at m f (item w (head_ptr ys) null) v.chain.1,
        run,
      ),
      record { cells = ys; list = t; holds = refl },
    )

-- With a buffer or memory for one, `xanPipe_get` of a pipe with pointers ends with the first of them and a pipe of the others.
pub get-IsPipe :
    (m : Memory) (s : XanPipe) (y : ℕ) (vs : List ℕ)
    → IsPipe m s (y ∷ vs)
    → CanFree m s.items
    → (m' : Memory) × (s' : XanPipe) × (get s m ≡ some ((y, s'), m')) × IsPipe m' s' vs
get-IsPipe m s y vs v c = go v.cells v.list v.holds
  where
    go :
        (xs : Cells)
        → IsList m s.items xs
        → values xs ≡ y ∷ vs
        → (m' : Memory) × (s' : XanPipe) × (get s m ≡ some ((y, s'), m')) × IsPipe m' s' vs
    go [] l e = absurd (ground (arith, e))
    go ((f, w) ∷ ys) l e =
        let (m', s', run, t) = get_cells m s f w ys l c in
        let same : w ≡ y = ground (arith, e) in
        let rest : values ys ≡ vs = ground (arith, e) in (m', s', rw (← same) run, rw (← rest) t)

module _ {Mutex : Type 0} (lock unlock : Mutex → Option Mutex) (free taken : Mutex)
    (locks : lock free ≡ some taken) (unlocks : unlock taken ≡ some free) where
  -- a call that holds a free mutex
  held-runs :
      {A : Type 0} (c : Cmd A) (m m' : Memory) (r : A)
      → c m ≡ some (r, m')
      → held lock unlock c free m ≡ some ((r, free), m')
  unfolding held call
  held-runs c m m' r run = ground (arith, locks, unlocks, run)

  -- If locking a free mutex takes it and unlocking frees it again, and the pipe's list has a buffer of
  -- free items, and in it an item or memory for one, or memory for an item and for a buffer, then a
  -- `xanPipe_syncPut` and a `xanPipe_syncGet` after it end with the pointer that stood first, which is
  -- the new one if the pipe was empty, with a pipe of the others, the new one last, and with a free
  -- mutex.
  pub sync_get-sync_put :
      (uninit : Item) (m : Memory) (s : XanPipe) (vs : List ℕ) (x y : ℕ) (ws : List ℕ)
      → IsPipe m s vs
      → CanCycle m s.items
      → vs ++ x ∷ [] ≡ y ∷ ws
      → (m' : Memory) × (s' : XanPipe) × ((sync_put lock unlock uninit s x free
              >>= (λ r. sync_get lock unlock r.0.1 r.1))
            m
          ≡ some (((y, s'), free), m'))
        × IsPipe m' s' ws
  sync_get-sync_put uninit m s vs x y ws v c e =
      let (p, m1, s1, run, w, room) =
        put-IsPipe uninit m s vs x v (CanCycle-CanAllocate m s.items c) in
      let (m2, s2, run', w') = get-IsPipe m1 s1 y ws (rw (← e) w) (room c) in
      let first = held-runs (put uninit s x) m m1 (p, s1) run in
      let second = held-runs (get s1) m1 m2 (y, s2) run' in
      (m2, s2, ground (arith, first, second), w')
