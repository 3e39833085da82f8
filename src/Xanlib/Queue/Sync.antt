-- ===== src/Xanlib/Queue/Sync.antt =====
-- The functions of xanlib/src/xanqueue.c that hold the mutex of the queue. The mutex of the platform is a
-- parameter: a lock that never returns and a failed call have no result, nor has the wait for an item in
-- an empty queue.
use cam_alias_checker.Prelude.{ℕ, Bool, Option, some, ◌>>=◌}
use cam_alias_checker.Xanlib.Queue.{
  Priorities, XanQueue, get, put, find, is_empty, head_priority, change_item_priority, remove_item,
}

module _ {Mutex : Type 0} (lock_mutex unlock_mutex : Mutex → Option Mutex) where
  -- a call between a lock and an unlock
  abbrev held : {A : Type 0} → Option A → Mutex → Option (A × Mutex)
  held call m = do m' ← lock_mutex m; r ← call; m'' ← unlock_mutex m'; some (r, m'')

  abbrev pub lock : Mutex → Option Mutex
  lock m = lock_mutex m

  abbrev pub unlock : Mutex → Option Mutex
  unlock m = unlock_mutex m

  module _ {P : Type 0} ⦃float : Priorities P⦄ where
    abbrev pub sync_get : XanQueue P → Mutex → Option ((ℕ × XanQueue P) × Mutex)
    sync_get q m = held (get q) m

    abbrev pub sync_put :
        (address element : ℕ) → P → XanQueue P → Mutex → Option (XanQueue P × Mutex)
    sync_put h e r q m = held (put h e r q) m

    abbrev pub sync_find : XanQueue P → (element : ℕ) → Mutex → Option (Option ℕ × Mutex)
    sync_find q e m = held (some (find q e)) m

    abbrev pub sync_is_empty : XanQueue P → Mutex → Option (Bool × Mutex)
    sync_is_empty q m = held (some (is_empty q)) m

    abbrev pub sync_head_priority : XanQueue P → Mutex → Option (P × Mutex)
    sync_head_priority q m = held (some (head_priority q)) m

    abbrev pub sync_change_item_priority :
        XanQueue P → (handle : ℕ) → P → Mutex → Option (XanQueue P × Mutex)
    sync_change_item_priority q h r m = held (change_item_priority q h r) m

    abbrev pub sync_remove_item : XanQueue P → (handle : ℕ) → Mutex → Option (XanQueue P × Mutex)
    sync_remove_item q h m = held (remove_item q h) m
