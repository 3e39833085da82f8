-- ===== src/Xanlib/LinkedList/Insert.antt =====
-- The functions of xanlib/src/xanlist.c that add one item. `uninit` is what a new item holds.
use cam_alias_checker.Prelude.{ℕ, ◌+◌, not, ◌&&◌, ◌||◌, ◌==◌, ltb, if◌then◌else◌}
use cam_alias_checker.Xanlib.LinkedList.Memory.{
  Ptr, null, Item, item, Cmd, ◌>>=◌, ◌>>◌, pure, check, load, store, set_next, set_prev,
}
use cam_alias_checker.Xanlib.LinkedList.Items.{XanList, allocate_item}

module _ (uninit : Item) where
  -- `xanList_append` behind the new item `p`: the branch for an empty list
  unfoldable pub append_first : Ptr → XanList → Cmd (Ptr × XanList)
  unfolding set_prev
  append_first p l = do
    check (l.len == 0)
    set_prev p null
    pure (p, record l { first_item = p; last_item = p; len = l.len + 1 })

  -- and for a list with items
  unfoldable pub append_last : Ptr → XanList → Cmd (Ptr × XanList)
  unfolding set_prev set_next
  append_last p l = do
    check (ltb 0 l.len)
    check (not (l.last_item == null))
    set_next l.last_item p
    set_prev p l.last_item
    pure (p, record l { last_item = p; len = l.len + 1 })

  unfoldable pub append : XanList → ℕ → Cmd (Ptr × XanList)
  unfolding allocate_item load store append_first append_last
  append l x = do
    (p, l') ← allocate_item uninit l
    check (not (p == null))
    i ← load p
    store p (record i { value = x; next = null })
    if l'.first_item == null then append_first p l' else append_last p l'

  -- `xanList_insert` behind the new item `p`: the branch for an empty list
  unfoldable pub insert_first : Ptr → XanList → Cmd (Ptr × XanList)
  insert_first p l = do
    check (l.len == 0)
    set_next p null
    pure (p, record l { first_item = p; last_item = p; len = l.len + 1 })

  -- and for a list with items
  unfoldable pub insert_in_front : Ptr → XanList → Cmd (Ptr × XanList)
  insert_in_front p l = do
    check (ltb 0 l.len)
    set_next p l.first_item
    set_prev l.first_item p
    check (not (l.last_item == null))
    pure (p, record l { first_item = p; len = l.len + 1 })

  unfoldable pub insert : XanList → ℕ → Cmd (Ptr × XanList)
  insert l x = do
    (p, l') ← allocate_item uninit l
    check (not (p == null))
    i ← load p
    store p (record i { value = x; prev = null })
    if l'.first_item == null then insert_first p l' else insert_in_front p l'

  unfoldable pub insert_before : XanList → Ptr → ℕ → Cmd (Ptr × XanList)
  unfolding allocate_item load store set_next set_prev insert
  insert_before l place x = do
    check (not (place == null) && not (l.first_item == null))
    if l.first_item == place then insert l x else (do
      (p, l') ← allocate_item uninit l
      check (not (p == null))
      i ← load p
      store p (record i { value = x; next = null })
      j ← load place
      set_next j.prev p
      set_prev place p
      set_prev p j.prev
      set_next p place
      check (not (l'.last_item == null))
      pure (p, record l' { len = l'.len + 1 }))

  -- the end of `xanList_insertAfter`, where `after` is the item that followed `place`
  unfoldable pub link_after : Ptr → Ptr → Ptr → XanList → Cmd (Ptr × XanList)
  unfolding set_next set_prev
  link_after place p after l = do
    set_next place p
    set_prev p place
    set_next p after
    if after == null then pure tt else set_prev after p
    let last = if after == null then p else l.last_item
    check (not (last == null))
    pure (p, record l { len = l.len + 1; last_item = last })

  unfoldable pub insert_after : XanList → Ptr → ℕ → Cmd (Ptr × XanList)
  unfolding allocate_item load store link_after append
  insert_after l place x = do
    check (not (place == null))
    if l.len == 1 || l.len == 0 then append l x else (do
      (p, l') ← allocate_item uninit l
      check (not (p == null))
      store p (item x null null)
      i ← load place
      link_after place p i.next l')
