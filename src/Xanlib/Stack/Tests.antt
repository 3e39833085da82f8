-- ===== src/Xanlib/Stack/Tests.antt =====
-- Runs of the list and the stack on small memories, and the theorems at such inputs.
use cam_alias_checker.Prelude.{
  Bool, true, false, ◌≡◌, refl, Option, none, some, [], ◌∷◌, arith, inr,
}
use cam_alias_checker.Xanlib.LinkedList.Memory.{
  Ptr, null, Item, item, Memory, pure, load, ◌>>=◌, write,
}
use cam_alias_checker.Xanlib.LinkedList.Items.{XanList, free_item}
use cam_alias_checker.Xanlib.LinkedList.Queries.{find}
use mathlib.Core.Option
use cam_alias_checker.Xanlib.LinkedList.Shape.{Cells, IsList}
use cam_alias_checker.Xanlib.LinkedList.Insert.{append, insert}
use cam_alias_checker.Xanlib.LinkedList.Push.{insert-cons}
use cam_alias_checker.Xanlib.LinkedList.Remove.{delete_item, unlink, unlink_first}
use cam_alias_checker.Xanlib.LinkedList.Pop.{delete_item-tail}
use cam_alias_checker.Xanlib.LinkedList.Whole.{reverse_in_place}
use cam_alias_checker.Xanlib.Stack.{XanStack, push, pop}
use cam_alias_checker.Xanlib.Stack.Lifo.{IsStack, pop-push}

-- what a new item holds
abbrev garbage : Item
garbage = item 99 98 97

-- one item at address 1 that holds 7, and memory for two more
abbrev memory : Memory
memory = record { cell = write 1 (some (item 7 null null)) (λ _. none); supply = 2 ∷ 3 ∷ [] }

abbrev one : XanList
one = record {
  len = 1;
  buffer = none;
  buffer_size = 0;
  first_item = 1;
  last_item = 1;
  clone = none;
}

abbrev one_cells : Cells
one_cells = (1, 7) ∷ []

one-IsList : IsList memory one one_cells
one-IsList = record {
  chain = (ground arith, refl, refl, tt);
  first = refl;
  last = refl;
  len = refl;
  spare = tt;
  fresh = (ground arith, refl, refl, (ground arith, refl, refl, tt));
}

insert-cons_example :
    (p : Ptr) × (m' : Memory) × (l' : XanList) × (insert garbage one 5 memory ≡ some ((p, l'), m'))
    × IsList m' l' ((p, 5) ∷ one_cells)
insert-cons_example = insert-cons garbage memory one one_cells 5 one-IsList (inr (ground arith))

delete_item-tail_example :
    (m' : Memory) × (l' : XanList) × (delete_item one 1 memory ≡ some (l', m')) × IsList m' l' []
delete_item-tail_example = delete_item-tail memory one 1 7 [] one-IsList (inr (ground arith))

abbrev stack : XanStack
stack = record { internal_list = one }

stack-IsStack : IsStack memory stack (7 ∷ [])
stack-IsStack = record { cells = one_cells; list = one-IsList; holds = refl }

pop-push_example :
    (m' : Memory) × (s' : XanStack) × ((push garbage stack 5 >>= pop) memory
      ≡ some ((some 5, s'), m'))
    × IsStack m' s' (7 ∷ [])
pop-push_example = pop-push garbage memory stack (7 ∷ []) 5 stack-IsStack (inr (omega arith))

-- a mutex that is held or not
abbrev lock : Bool → Option Bool
lock true = none
lock false = some true

abbrev unlock : Bool → Option Bool
unlock true = some false
unlock false = none

-- A list that gets 5 at its end is then turned round.
turned : Option ((Ptr × Ptr) × Memory)
turned =
    (do (_, l) ← append garbage one 5; r ← reverse_in_place l; pure (r.first_item, r.last_item))
      memory

-- The new item comes first.
turned_ends : Option.map (λ r. r.0) turned ≡ some (2, 1)
unfolding turned append reverse_in_place
turned_ends = refl

-- There is no memory for the buffer that the freed item is to go to.
no_memory_to_free : delete_item one 1 (record memory { supply = [] }) ≡ none
unfolding delete_item load find unlink unlink_first free_item
no_memory_to_free = refl
