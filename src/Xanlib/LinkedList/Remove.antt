-- ===== src/Xanlib/LinkedList/Remove.antt =====
-- The functions of xanlib/src/xanlist.c that remove items.
use cam_alias_checker.Prelude.{
  ℕ, zero, suc, ◌+◌, ◌-◌, Bool, not, List, [], ◌∷◌, ◌==◌, if◌then◌else◌,
}
use cam_alias_checker.Xanlib.LinkedList.Memory.{
  Ptr, null, Item, Cmd, ◌>>=◌, ◌>>◌, pure, fail, check, load, set_next, free,
}
use cam_alias_checker.Xanlib.LinkedList.Items.{XanList, first, free_item, buffered}
use cam_alias_checker.Xanlib.LinkedList.Queries.{find}
use cam_alias_checker.Xanlib.LinkedList.Move.{set_prev_if}

-- The list with item `p` taken out, where `i` is what `p` held: the code that `xanList_deleteItem`,
-- `xanList_removeElement` and `xanList_removeAllElements` share. `len` is not 0 where it is made less.
unfoldable pub unlink_first : XanList → Ptr → Item → Cmd XanList
unlink_first l p i = do
  check (l.first_item == p)
  l' ← free_item l p
  set_prev_if i.next null
  pure (record l' { first_item = i.next; len = l'.len - 1 })

unfoldable pub unlink_later : XanList → Ptr → Item → Cmd XanList
unfolding free_item load set_next set_prev_if
unlink_later l p i = do
  check (not (l.first_item == p))
  j ← load i.prev
  check (j.next == p)
  l' ← free_item l p
  set_next i.prev i.next
  set_prev_if i.next i.prev
  pure (record l' { len = l'.len - 1 })

unfoldable pub unlink : XanList → Ptr → Item → Cmd XanList
unlink l p i = do
  if i.next == null then check (l.last_item == p) else pure tt
  let l' = if i.next == null then record l { last_item = i.prev } else l
  if i.prev == null then unlink_first l' p i else unlink_later l' p i

unfoldable pub delete_item : XanList → Ptr → Cmd XanList
delete_item l p = do
  check (not (p == null))
  i ← load p
  q ← find l i.value
  check (not (q == null))
  unlink l p i

unfoldable pub remove_element : XanList → ℕ → (abort_if_absent : Bool) → Cmd XanList
unfolding load find unlink
remove_element l x abort_if_absent = do
  p ← find l x
  if p == null
      then (if abort_if_absent then fail else pure l)
      else (do i ← load p; check (i.value == x); unlink l p i)

-- `xanList_removeElements`, over the items from `p` on
unfoldable pub remove_elements_from : ℕ → XanList → Ptr → (abort_if_absent : Bool) → Cmd XanList
unfolding load remove_element
remove_elements_from zero l p abort_if_absent = fail
remove_elements_from (suc fuel) l p abort_if_absent = if p == null then pure l else (do
  i ← load p
  l' ← remove_element l i.value abort_if_absent
  j ← load p
  remove_elements_from fuel l' j.next abort_if_absent)

unfoldable pub remove_elements : XanList → XanList → (abort_if_absent : Bool) → Cmd XanList
unfolding remove_elements_from
remove_elements l gone abort_if_absent =
    remove_elements_from (gone.len + 1) l (first gone) abort_if_absent

-- The loop of `xanList_removeAllElements`: a round for each item that goes, and one to find none.
unfoldable pub remove_all_from : ℕ → XanList → ℕ → Cmd XanList
unfolding load find unlink
remove_all_from zero l x = fail
remove_all_from (suc fuel) l x = do
  p ← find l x
  if p == null
      then pure l
      else (do i ← load p; check (i.value == x); l' ← unlink l p i; remove_all_from fuel l' x)

unfoldable pub remove_all_elements : XanList → ℕ → Cmd XanList
unfolding remove_all_from
remove_all_elements l x = remove_all_from (l.len + 1) l x

-- `xanList_emptyOutList`: the first item is deleted until there is none
unfoldable pub empty_out_from : ℕ → XanList → Cmd XanList
unfolding delete_item
empty_out_from zero l = fail
empty_out_from (suc fuel) l =
    if l.first_item == null
    then (do check (l.last_item == null); pure l)
    else (do l' ← delete_item l l.first_item; empty_out_from fuel l')

unfoldable pub empty_out_list : XanList → Cmd XanList
unfolding empty_out_from
empty_out_list l = empty_out_from (l.len + 1) l

-- the inner loop of `xanList_deleteClones`, over the items behind the one that holds `x`
unfoldable pub delete_clones_of : ℕ → XanList → ℕ → Ptr → Cmd XanList
unfolding load delete_item
delete_clones_of zero l x p = fail
delete_clones_of (suc fuel) l x p = if p == null then pure l else (do
  i ← load p
  l' ← (if i.value == x then delete_item l p else pure l)
  delete_clones_of fuel l' x i.next)

unfoldable pub delete_clones_from : ℕ → XanList → Ptr → Cmd XanList
unfolding load delete_clones_of
delete_clones_from zero l p = fail
delete_clones_from (suc fuel) l p = if p == null then pure l else (do
  i ← load p
  l' ← delete_clones_of (l.len + 1) l i.value i.next
  j ← load p
  delete_clones_from fuel l' j.next)

unfoldable pub delete_clones : XanList → Cmd XanList
unfolding delete_clones_from
delete_clones l = delete_clones_from (l.len + 1) l (first l)

-- `xanList_destroyList`: the items are given back, then those of the buffer
unfoldable pub free_items_from : ℕ → Ptr → Cmd (Unit {0})
unfolding load free
free_items_from zero p = fail
free_items_from (suc fuel) p =
    if p == null then pure tt else (do i ← load p; free p; free_items_from fuel i.next)

-- `internal_destroyBuffer`, from the bottom of the buffer on
unfoldable pub destroy_buffer : List Ptr → Cmd (Unit {0})
unfolding free
destroy_buffer [] = pure tt
destroy_buffer (p ∷ ps) = do destroy_buffer ps; free p

unfoldable pub destroy_list : XanList → Cmd (Unit {0})
unfolding free_items_from destroy_buffer
destroy_list l = do free_items_from (l.len + 1) (first l); destroy_buffer (buffered l)
