-- ===== src/Xanlib/Stack/Lifo.antt =====
-- The stack of xanlib/src/xanstack.c against a sequence of pointers, the top first.
use cam_alias_checker.Prelude.{ℕ, ◌≡◌, refl, Option, none, some, List, [], ◌∷◌, arith, ap}
use mathlib.Core.Option
use cam_alias_checker.Xanlib.LinkedList.Memory.{Ptr, null, Item, item, Memory, ◌>>=◌}
use cam_alias_checker.Xanlib.LinkedList.Shape.{Cells, head_ptr, IsList}
use cam_alias_checker.Xanlib.LinkedList.Allocate.{
  CanAllocate, CanCycle, CanFree, CanCycle-CanAllocate,
}
use cam_alias_checker.Xanlib.LinkedList.Push.{inserts, load-at}
use cam_alias_checker.Xanlib.LinkedList.Pop.{delete_item-tail}
use cam_alias_checker.Xanlib.Stack.{XanStack, push, pop, top}

abbrev pub values : Cells → List ℕ
values [] = []
values ((p, v) ∷ xs) = v ∷ values xs

-- The stack's list holds the pointers `vs`.
pub record IsStack (m : Memory) (s : XanStack) (vs : List ℕ) : Type 0 where
  pub cells : Cells
  pub list : IsList m s.internal_list cells
  pub holds : values cells ≡ vs

-- With an item or memory to spare, `xanStack_push` ends with the pointer on top of the old ones.
pub push-IsStack :
    (uninit : Item) (m : Memory) (s : XanStack) (vs : List ℕ) (x : ℕ)
    → IsStack m s vs
    → CanAllocate m s.internal_list
    → (m' : Memory) × (s' : XanStack) × (push uninit s x m ≡ some (s', m'))
      × IsStack m' s' (x ∷ vs)
      × (CanCycle m s.internal_list → CanFree m' s'.internal_list)
unfolding push
push-IsStack uninit m s vs x v c =
    let (p, m', l', run, w, room) = inserts uninit m s.internal_list v.cells x v.list c in
    (
      m',
      record { internal_list = l' },
      ground (arith, run),
      record { cells = (p, x) ∷ v.cells; list = w; holds = ap (λ us. x ∷ us) v.holds },
      room,
    )

pop_cells :
    (m : Memory) (s : XanStack) (f : Ptr) (w : ℕ) (ys : Cells)
    → IsList m s.internal_list ((f, w) ∷ ys)
    → CanFree m s.internal_list
    → (m' : Memory) × (s' : XanStack) × (pop s m ≡ some ((some w, s'), m'))
      × IsStack m' s' (values ys)
unfolding pop
pop_cells m s f w ys v c =
    let (m', l', run, t) = delete_item-tail m s.internal_list f w ys v c in
    (
      m',
      record { internal_list = l' },
      ground (
        arith,
        v.first,
        v.len,
        v.chain.0,
        load-at m f (item w (head_ptr ys) null) v.chain.1,
        run,
      ),
      record { cells = ys; list = t; holds = refl },
    )

pop_empty : (m : Memory) (s : XanStack) → s.internal_list.len ≡ 0 → pop s m ≡ some ((none, s), m)
unfolding pop
pop_empty m s e = ground arith

top_empty : (m : Memory) (s : XanStack) → s.internal_list.len ≡ 0 → top s m ≡ none
unfolding top
top_empty m s e = ground arith

top_cells :
    (m : Memory) (s : XanStack) (f : Ptr) (w : ℕ) (ys : Cells)
    → IsList m s.internal_list ((f, w) ∷ ys)
    → top s m ≡ some (w, m)
unfolding top
top_cells m s f w ys l =
    ground (arith, l.first, l.len, l.chain.0, load-at m f (item w (head_ptr ys) null) l.chain.1)

-- the top of a sequence, and what is below it
abbrev pub top_of : List ℕ → Option ℕ
top_of [] = none
top_of (x ∷ vs) = some x

abbrev pub below : List ℕ → List ℕ
below [] = []
below (x ∷ vs) = vs

-- With a buffer or memory for one, `xanStack_pop` ends with the top of the stack, or NULL if there is none, and the stack of the
-- pointers below.
pub pop-IsStack :
    (m : Memory) (s : XanStack) (vs : List ℕ)
    → IsStack m s vs
    → CanFree m s.internal_list
    → (m' : Memory) × (s' : XanStack) × (pop s m ≡ some ((top_of vs, s'), m'))
      × IsStack m' s' (below vs)
pop-IsStack m s vs v c = go v.cells v.list v.holds
  where
    go :
        (xs : Cells)
        → IsList m s.internal_list xs
        → values xs ≡ vs
        → (m' : Memory) × (s' : XanStack) × (pop s m ≡ some ((top_of vs, s'), m'))
          × IsStack m' s' (below vs)
    go [] l e = rw (← e) (m, s, pop_empty m s l.len, record { cells = []; list = l; holds = refl })
    go ((f, w) ∷ ys) l e = rw (← e) (pop_cells m s f w ys l c)

-- `xanStack_top` returns the top of the stack and changes nothing, and aborts if there is none.
pub top-IsStack :
    (m : Memory) (s : XanStack) (vs : List ℕ)
    → IsStack m s vs
    → top s m ≡ Option.map (λ x. (x, m)) (top_of vs)
top-IsStack m s vs v = go v.cells v.list v.holds
  where
    go :
        (xs : Cells)
        → IsList m s.internal_list xs
        → values xs ≡ vs
        → top s m ≡ Option.map (λ x. (x, m)) (top_of vs)
    go [] l e = rw (← e) (top_empty m s l.len)
    go ((f, w) ∷ ys) l e = rw (← e) (top_cells m s f w ys l)

-- Where the stack's list has a buffer of free items, and in it an item or memory for one, or memory for
-- an item and for a buffer, a push and then a pop end with the pushed pointer and a stack of the pointers
-- from before.
pub pop-push :
    (uninit : Item) (m : Memory) (s : XanStack) (vs : List ℕ) (x : ℕ)
    → IsStack m s vs
    → CanCycle m s.internal_list
    → (m' : Memory) × (s' : XanStack) × ((push uninit s x >>= pop) m ≡ some ((some x, s'), m'))
      × IsStack m' s' vs
pop-push uninit m s vs x v c =
    let (m1, s1, run, w, room) =
      push-IsStack uninit m s vs x v (CanCycle-CanAllocate m s.internal_list c) in
    let (m2, s2, run', w') = pop-IsStack m1 s1 (x ∷ vs) w (room c) in
    (m2, s2, ground (arith, run, run'), w')
