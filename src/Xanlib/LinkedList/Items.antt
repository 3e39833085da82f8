-- ===== src/Xanlib/LinkedList/Items.antt =====
-- `struct XanList` and the buffer of free items of xanlib/src/xanlist.c.
use cam_alias_checker.Prelude.{
  ℕ, not, Option, none, some, List, [], ◌∷◌, ◌==◌, if◌then◌else◌, length,
}
use cam_alias_checker.Xanlib.LinkedList.Memory.{
  Ptr, null, Item, item, Cmd, ◌>>=◌, ◌>>◌, pure, check, load, store, alloc, alloc_array, free,
}

-- The fields of the list but its functions. `buffer` is the array `bufferItems`, its top first; it
-- is `none` before the array is allocated, and `bufferItemsTop` is its length. An item count is no
-- larger than memory, so `len` does not overflow.
pub record XanList : Type 0 where
  pub len : ℕ
  pub buffer : Option (List Ptr)
  pub buffer_size : ℕ
  pub first_item : Ptr
  pub last_item : Ptr
  -- `clone`, if the list has such a function
  pub clone : Option (ℕ → ℕ)

unfoldable pub new : Option (ℕ → ℕ) → XanList
new clone = record {
  len = 0;
  buffer = none;
  buffer_size = 0;
  first_item = null;
  last_item = null;
  clone = clone;
}

-- `internal_allocateItem`: an item of the buffer, or a new one
unfoldable pub allocate_from : Option (List Ptr) → (uninit : Item) → XanList → Cmd (Ptr × XanList)
unfolding alloc
allocate_from (some (p ∷ ps)) uninit l = do
  check (not (p == null))
  pure (p, record l { buffer = some ps })
allocate_from (some []) uninit l = do p ← alloc uninit; pure (p, l)
allocate_from none uninit l = do p ← alloc uninit; pure (p, l)

unfoldable pub allocate_item : (uninit : Item) → XanList → Cmd (Ptr × XanList)
unfolding allocate_from
allocate_item uninit l = allocate_from l.buffer uninit l

-- the first step of `internal_freeItem`: the array of 4 places is allocated, and written to without a test
-- of the pointer
unfoldable pub with_buffer_of : Option (List Ptr) → XanList → Cmd XanList
unfolding alloc_array
with_buffer_of none l = do p ← alloc_array; pure (record l { buffer = some []; buffer_size = 4 })
with_buffer_of (some ps) l = pure l

unfoldable pub with_buffer : XanList → Cmd XanList
unfolding with_buffer_of
with_buffer l = with_buffer_of l.buffer l

abbrev pub buffered : XanList → List Ptr
buffered l = elim l.buffer [ none ↦ [] | some ps ↦ ps ]

-- `internal_freeItem`: the item is erased and kept in the buffer, or given back
unfoldable pub free_item : XanList → Ptr → Cmd XanList
unfolding with_buffer store free
free_item l p = do
  l' ← with_buffer l
  if length (buffered l') == l'.buffer_size
      then (do free p; pure l')
      else (do store p (item 0 null null); pure (record l' { buffer = some (p ∷ buffered l') }))

-- `xanList_first` and `xanList_last`
abbrev pub first : XanList → Ptr
first l = l.first_item

abbrev pub last : XanList → Ptr
last l = l.last_item

-- `xanList_next`, `xanList_prev`, `xanList_getData`
unfoldable pub next : Ptr → Cmd Ptr
unfolding load
next p = do check (not (p == null)); i ← load p; pure i.next

unfoldable pub prev : Ptr → Cmd Ptr
unfolding load
prev p = do check (not (p == null)); i ← load p; pure i.prev

unfoldable pub get_data : Ptr → Cmd ℕ
unfolding load
get_data p = do check (not (p == null)); i ← load p; pure i.value

-- `xanList_length`
abbrev pub len_of : XanList → ℕ
len_of l = l.len

unfoldable pub set_clone_function : XanList → Option (ℕ → ℕ) → XanList
set_clone_function l f = record l { clone = f }

abbrev pub get_clone_function : XanList → Option (ℕ → ℕ)
get_clone_function l = l.clone
