-- ===== src/Xanlib/LinkedList/Whole.antt =====
-- The functions of xanlib/src/xanlist.c that go through whole lists and write: appending a list,
-- cloning, reversing, and the list of what two lists share.
use cam_alias_checker.Prelude.{ℕ, zero, suc, ◌+◌, Bool, none, some, ◌==◌, if◌then◌else◌}
use cam_alias_checker.Xanlib.LinkedList.Memory.{
  Ptr, null, Item, Cmd, ◌>>=◌, ◌>>◌, pure, fail, load, store,
}
use cam_alias_checker.Xanlib.LinkedList.Items.{XanList, new, first}
use cam_alias_checker.Xanlib.LinkedList.Queries.{find}
use cam_alias_checker.Xanlib.LinkedList.Insert.{append}

module _ (uninit : Item) where
  -- `f` is applied to what is appended: nothing but the clone function of `xanList_cloneList`.
  unfoldable pub append_from : ℕ → (ℕ → ℕ) → XanList → Ptr → Cmd XanList
  unfolding load append
  append_from zero f l p = fail
  append_from (suc fuel) f l p = if p == null then pure l else (do
    i ← load p
    (_, l') ← append uninit l (f i.value)
    j ← load p
    append_from fuel f l' j.next)

  -- `xanList_appendList`, of two lists that share no item
  unfoldable pub append_list : XanList → XanList → Cmd XanList
  unfolding append_from
  append_list l other = append_from (other.len + 1) (λ x. x) l (first other)

  abbrev pub clone_function : XanList → ℕ → ℕ
  clone_function l x = elim l.clone [ none ↦ x | some f ↦ f x ]

  unfoldable pub clone_list : XanList → Cmd XanList
  unfolding append_from new
  clone_list l = append_from (l.len + 1) (clone_function l) (new l.clone) (first l)

  unfoldable pub shared_from : ℕ → XanList → XanList → Ptr → Cmd XanList
  unfolding load find append
  shared_from zero other shared p = fail
  shared_from (suc fuel) other shared p = if p == null then pure shared else (do
    i ← load p
    q ← find other i.value
    shared' ←
        (if q == null then pure shared else (do (_, s) ← append uninit shared i.value; pure s))
    shared_from fuel other shared' i.next)

  unfoldable pub get_shared_elements : XanList → XanList → Cmd XanList
  unfolding shared_from new
  get_shared_elements l other = shared_from (l.len + 1) other (new l.clone) (first l)

-- The loop of `xanList_reverseList` exchanges the pointers of each item.
unfoldable pub reverse_from : ℕ → Ptr → Cmd (Unit {0})
unfolding load store
reverse_from zero p = fail
reverse_from (suc fuel) p = if p == null then pure tt else (do
  i ← load p
  store p (record i { next = i.prev; prev = i.next })
  reverse_from fuel i.next)

unfoldable pub reverse_in_place : XanList → Cmd XanList
unfolding reverse_from
reverse_in_place l = do
  reverse_from (l.len + 1) l.first_item
  pure (record l { first_item = l.last_item; last_item = l.first_item })

unfoldable pub reverse_list : (uninit : Item) → XanList → (clone : Bool) → Cmd XanList
unfolding clone_list reverse_in_place
reverse_list uninit l clone = do
  reversed ← (if clone then clone_list uninit l else pure l)
  reverse_in_place reversed
