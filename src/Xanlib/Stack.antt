-- ===== src/Xanlib/Stack.antt =====
-- xanlib/src/xanstack.c: a stack is a list with its top at the front. Its allocation, free and clone
-- functions are those of the list.
pub mod Lifo
pub mod Sync
mod Tests
use cam_alias_checker.Prelude.{ℕ, Bool, not, Option, none, some, ◌==◌, ltb, if◌then◌else◌}
use cam_alias_checker.Xanlib.LinkedList.Memory.{
  null, Item, Cmd, ◌>>=◌, ◌>>◌, pure, fail, check, load,
}
use cam_alias_checker.Xanlib.LinkedList.Items
use cam_alias_checker.Xanlib.LinkedList.Items.{XanList}
use cam_alias_checker.Xanlib.LinkedList.Queries.{find, contains_the_same_elements}
use cam_alias_checker.Xanlib.LinkedList.Insert.{insert}
use cam_alias_checker.Xanlib.LinkedList.Remove.{delete_item, destroy_list}
use cam_alias_checker.Xanlib.LinkedList.Whole.{clone_list}

pub record XanStack : Type 0 where
  pub internal_list : XanList

unfoldable pub new : Option (ℕ → ℕ) → XanStack
new clone = record { internal_list = Items.new clone }

unfoldable pub push : (uninit : Item) → XanStack → ℕ → Cmd XanStack
push uninit s x = do (_, l) ← insert uninit s.internal_list x; pure (record s { internal_list = l })

-- `none` is NULL, for an empty stack.
unfoldable pub pop : XanStack → Cmd (Option ℕ × XanStack)
pop s =
    if ltb 0 s.internal_list.len
    then (do
      let p = Items.first s.internal_list
      check (not (p == null))
      i ← load p
      l ← delete_item s.internal_list p
      pure (some i.value, record s { internal_list = l }))
    else pure (none, s)

-- The top of an empty stack is an error, after which the program aborts.
unfoldable pub top : XanStack → Cmd ℕ
top s =
    if s.internal_list.len == 0
    then fail
    else (do let p = Items.first s.internal_list; check (not (p == null)); i ← load p; pure i.value)

abbrev pub get_size : XanStack → ℕ
get_size s = s.internal_list.len

unfoldable pub contains : XanStack → ℕ → Cmd Bool
unfolding find
contains s x = do p ← find s.internal_list x; pure (not (p == null))

-- for two stacks that are not one and the same
unfoldable pub same_elements : XanStack → XanStack → Cmd Bool
unfolding contains_the_same_elements
same_elements s t = contains_the_same_elements s.internal_list t.internal_list

unfoldable pub to_list : (uninit : Item) → XanStack → Cmd XanList
unfolding clone_list
to_list uninit s = clone_list uninit s.internal_list

-- The list of the new stack is destroyed, and a clone put in its place.
unfoldable pub clone : (uninit : Item) → XanStack → Cmd XanStack
unfolding new clone_list destroy_list
clone uninit s = do
  let fresh = new s.internal_list.clone
  destroy_list fresh.internal_list
  l ← clone_list uninit s.internal_list
  pure (record fresh { internal_list = l })

unfoldable pub destroy : XanStack → Cmd (Unit {0})
unfolding destroy_list
destroy s = destroy_list s.internal_list
