-- ===== src/Xanlib/LinkedList/Move.antt =====
-- `xanList_moveBeforeItem` and `xanList_moveToBegin` of xanlib/src/xanlist.c.
use cam_alias_checker.Prelude.{not, ◌&&◌, ◌==◌, ltb, if◌then◌else◌}
use cam_alias_checker.Xanlib.LinkedList.Memory.{
  Ptr, null, Item, Cmd, ◌>>=◌, ◌>>◌, pure, check, load, set_next, set_prev,
}
use cam_alias_checker.Xanlib.LinkedList.Items.{XanList}

-- the assertions that the list ends on both sides
unfoldable pub check_ends : XanList → Cmd (Unit {0})
unfolding load
check_ends l = do
  i ← load l.first_item
  check (i.prev == null)
  j ← load l.last_item
  check (j.next == null)

-- a write through a pointer that may be NULL, which is tested first
unfoldable pub set_next_if : Ptr → Ptr → Cmd (Unit {0})
unfolding set_next
set_next_if p q = if p == null then pure tt else set_next p q

unfoldable pub set_prev_if : Ptr → Ptr → Cmd (Unit {0})
unfolding set_prev
set_prev_if p q = if p == null then pure tt else set_prev p q

-- The moves of the pointers, where `before` precedes `place`, and `moved_prev` and `moved_next` stand
-- round the item to move.
unfoldable pub relink : (moved place before moved_prev moved_next : Ptr) → Cmd (Unit {0})
unfolding set_next set_prev set_next_if set_prev_if
relink moved place before moved_prev moved_next = do
  set_prev moved before
  set_next_if before moved
  set_next moved place
  set_prev place moved
  set_next_if moved_prev moved_next
  set_prev_if moved_next moved_prev

-- the first and the last item after the move
unfoldable pub fix_ends : XanList → (moved place moved_prev moved_next : Ptr) → XanList
fix_ends l moved place moved_prev moved_next =
    let first = if l.first_item == moved then moved_next else l.first_item in
    record l {
      first_item = if first == place then moved else first;
      last_item = if l.last_item == moved then moved_prev else l.last_item;
    }

unfoldable pub move_before_item : XanList → (moved place : Ptr) → Cmd XanList
unfolding load check_ends relink fix_ends
move_before_item l moved place = do
  check (not (moved == null) && not (place == null))
  check_ends l
  i ← load place
  j ← load moved
  if i.prev == moved then pure l else (do
    relink moved place i.prev j.prev j.next
    let l' = fix_ends l moved place j.prev j.next
    check (not (l'.last_item == null))
    check_ends l'
    pure l')

-- the branch of `xanList_moveToBegin` for an item that is not the first
unfoldable pub move_up : XanList → Ptr → Item → Cmd XanList
unfolding load set_next set_prev set_prev_if
move_up l p i = do
  f ← load l.first_item
  check (f.prev == null)
  check (not (i.prev == null))
  check (not (l.last_item == null))
  let last = if l.last_item == p then i.prev else l.last_item
  set_next i.prev i.next
  check (not (i.next == p))
  set_prev_if i.next i.prev
  check (not (i.prev == p))
  set_next p l.first_item
  set_prev p null
  set_prev l.first_item p
  pure (record l { first_item = p; last_item = last })

unfoldable pub move_to_begin : XanList → Ptr → Cmd (Ptr × XanList)
unfolding load move_up
move_to_begin l p = do
  check (not (p == null) && ltb 0 l.len)
  i ← load p
  l' ← (if l.first_item == p then pure l else move_up l p i)
  check (not (l'.first_item == null) && (l'.first_item == p))
  f ← load l'.first_item
  check (f.prev == null)
  pure (l'.first_item, l')
