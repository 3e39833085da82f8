-- ===== src/Xanlib/Pipe.antt =====
-- xanlib/src/xanpipe.c: a pipe is a list, whose front is taken first. Its allocation and free functions are
-- those of the list. A caller that waits for an item of an empty pipe has no result.
pub mod Fifo
pub mod Sync
mod Tests
use cam_alias_checker.Prelude.{ℕ, Bool, not, none, ◌==◌, ltb, if◌then◌else◌}
use cam_alias_checker.Xanlib.LinkedList.Memory.{
  Ptr, null, Item, Cmd, ◌>>=◌, ◌>>◌, pure, fail, check, load,
}
use cam_alias_checker.Xanlib.LinkedList.Items
use cam_alias_checker.Xanlib.LinkedList.Items.{XanList}
use cam_alias_checker.Xanlib.LinkedList.Queries.{find, equals_instances_number}
use cam_alias_checker.Xanlib.LinkedList.Insert.{append, insert}
use cam_alias_checker.Xanlib.LinkedList.Move.{move_to_begin}
use cam_alias_checker.Xanlib.LinkedList.Remove.{delete_item, destroy_list}

pub record XanPipe : Type 0 where
  pub items : XanList

unfoldable pub new : XanPipe
new = record { items = Items.new none }

-- the item of `get`, behind the wait
unfoldable pub take_first : XanPipe → Cmd (ℕ × XanPipe)
unfolding delete_item
take_first s = do
  let p = Items.first s.items
  check (not (p == null))
  i ← load p
  l ← delete_item s.items p
  pure (i.value, record s { items = l })

unfoldable pub get : XanPipe → Cmd (ℕ × XanPipe)
unfolding take_first
get s = if s.items.len == 0 then fail else take_first s

-- the assertions on the item that a call has returned
unfoldable pub check_data : Ptr → ℕ → Cmd (Unit {0})
unfolding load
check_data p x = do check (not (p == null)); i ← load p; check (i.value == x)

unfoldable pub put : (uninit : Item) → XanPipe → ℕ → Cmd (Ptr × XanPipe)
unfolding append check_data
put uninit s x = do
  (p, l) ← append uninit s.items x
  check_data p x
  pure (p, record s { items = l })

unfoldable pub put_at_end : (uninit : Item) → XanPipe → ℕ → Cmd (Ptr × XanPipe)
unfolding insert check_data
put_at_end uninit s x = do
  check (not (x == null))
  (p, l) ← insert uninit s.items x
  check_data p x
  pure (p, record s { items = l })

-- an element that the pipe has, at the item `p`
unfoldable pub move_found : XanPipe → Ptr → ℕ → Cmd (Ptr × XanPipe)
unfolding equals_instances_number check_data move_to_begin
move_found s p x = do
  n ← equals_instances_number s.items x
  check (n == 1)
  check (ltb 0 s.items.len)
  check_data p x
  (q, l) ← move_to_begin s.items p
  check_data q x
  check (ltb 0 l.len)
  k ← equals_instances_number l x
  check (k == 1)
  pure (q, record s { items = l })

unfoldable pub move_to_end : XanPipe → ℕ → Cmd (Ptr × XanPipe)
unfolding find move_found
move_to_end s x = do
  check (not (x == null))
  p ← find s.items x
  if p == null then pure (p, s) else move_found s p x

unfoldable pub remove_item : XanPipe → (handle : Ptr) → Cmd XanPipe
unfolding delete_item
remove_item s p = do
  check (not (p == null))
  l ← delete_item s.items p
  pure (record s { items = l })

abbrev pub is_empty : XanPipe → Bool
is_empty s = s.items.len == 0

unfoldable pub destroy_pipe : XanPipe → Cmd (Unit {0})
unfolding destroy_list
destroy_pipe s = destroy_list s.items
