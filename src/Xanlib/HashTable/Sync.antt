-- ===== src/Xanlib/HashTable/Sync.antt =====
-- The functions of xanlib/src/xantable.c that hold the mutex of the table. The mutex of the platform is
-- a parameter: a lock that never returns and a failed call have no result.
use cam_alias_checker.Prelude.{ℕ, Option, none, some, List, ◌==◌, if◌then◌else◌, ◌>>=◌}
use cam_alias_checker.Xanlib.HashTable.{
  Keys, LoadFactor, XanHashTable, get_clone_function, set_clone_function, elements_inside,
}
use cam_alias_checker.Xanlib.HashTable.Ops.{insert, lookup, remove_element}
use cam_alias_checker.Xanlib.HashTable.Walk.{
  first, next, to_list, to_key_list, to_slot_list, to_item_list, empty_out_table, clone_table,
}

module _ {Mutex : Type 0} (lock_mutex unlock_mutex : Mutex → Option Mutex) where
  -- a call between a lock and an unlock
  abbrev pub held : {A : Type 0} → Option A → Mutex → Option (A × Mutex)
  held call m = do m' ← lock_mutex m; r ← call; m'' ← unlock_mutex m'; some (r, m'')

  abbrev pub lock : Mutex → Option Mutex
  lock m = lock_mutex m

  abbrev pub unlock : Mutex → Option Mutex
  unlock m = unlock_mutex m

  module _ {F : Type 0} where
    abbrev pub sync_first : XanHashTable F → Mutex → Option (Option (ℕ × ℕ) × Mutex)
    sync_first t m = held (first t) m

    abbrev pub sync_next : XanHashTable F → ℕ × ℕ → Mutex → Option (Option (ℕ × ℕ) × Mutex)
    sync_next t p m = held (next t p) m

    abbrev pub sync_elements_inside : XanHashTable F → Mutex → Option (ℕ × Mutex)
    sync_elements_inside t m = held (some (elements_inside t)) m

    abbrev pub sync_to_list : XanHashTable F → Mutex → Option (List ℕ × Mutex)
    sync_to_list t m = held (some (to_list t)) m

    abbrev pub sync_to_key_list : XanHashTable F → Mutex → Option (List ℕ × Mutex)
    sync_to_key_list t m = held (some (to_key_list t)) m

    abbrev pub sync_to_slot_list : XanHashTable F → Mutex → Option (List (ℕ × ℕ) × Mutex)
    sync_to_slot_list t m = held (some (to_slot_list t)) m

    abbrev pub sync_to_item_list : XanHashTable F → Mutex → Option (List (ℕ × ℕ) × Mutex)
    sync_to_item_list t m = held (some (to_item_list t)) m

    abbrev pub sync_get_clone_function : XanHashTable F → Mutex → Option (Option (ℕ → ℕ) × Mutex)
    sync_get_clone_function t m = held (some (get_clone_function t)) m

    abbrev pub sync_set_clone_function :
        XanHashTable F → Option (ℕ → ℕ) → Mutex → Option (XanHashTable F × Mutex)
    sync_set_clone_function t f m = held (some (set_clone_function t f)) m

    module _ ⦃fl : LoadFactor F⦄ where
      abbrev pub sync_empty_out_table : XanHashTable F → Mutex → Option (XanHashTable F × Mutex)
      sync_empty_out_table t m = held (empty_out_table t) m

      module _ ⦃ks : Keys⦄ where
        -- The key must not be NULL.
        abbrev pub sync_insert :
            (key element : ℕ) → XanHashTable F → Mutex → Option (XanHashTable F × Mutex)
        sync_insert key e t m = if key == 0 then none else held (insert key e t) m

        abbrev pub sync_lookup : (key : ℕ) → XanHashTable F → Mutex → Option (ℕ × Mutex)
        sync_lookup key t m = held (lookup key t) m

        abbrev pub sync_remove_element :
            (key : ℕ) → XanHashTable F → Mutex → Option ((ℕ × XanHashTable F) × Mutex)
        sync_remove_element key t m = held (remove_element key t) m

        abbrev pub sync_clone_table : XanHashTable F → Mutex → Option (XanHashTable F × Mutex)
        sync_clone_table t m = held (clone_table t) m
