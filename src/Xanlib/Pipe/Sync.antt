-- ===== src/Xanlib/Pipe/Sync.antt =====
-- The functions of xanlib/src/xanpipe.c that hold the mutex of the pipe. The mutex of the platform is a
-- parameter: a lock that never returns and a failed call have no result.
use cam_alias_checker.Prelude.{ℕ, Bool, Option}
use cam_alias_checker.Xanlib.LinkedList.Memory.{Ptr, Item, Cmd, ◌>>=◌, pure}
use cam_alias_checker.Xanlib.Stack.Sync.{call}
use cam_alias_checker.Xanlib.Pipe.{
  XanPipe, get, put, put_at_end, move_to_end, remove_item, is_empty,
}

module _ {Mutex : Type 0} (lock_mutex unlock_mutex : Mutex → Option Mutex) where
  -- a call between a lock and an unlock
  unfoldable pub held : {A : Type 0} → Cmd A → Mutex → Cmd (A × Mutex)
  held c x = do
    y ← call lock_mutex unlock_mutex lock_mutex x
    r ← c
    z ← call lock_mutex unlock_mutex unlock_mutex y
    pure (r, z)

  abbrev pub lock : Mutex → Option Mutex
  lock x = lock_mutex x

  abbrev pub unlock : Mutex → Option Mutex
  unlock x = unlock_mutex x

  abbrev pub sync_get : XanPipe → Mutex → Cmd ((ℕ × XanPipe) × Mutex)
  sync_get s x = held (get s) x

  abbrev pub sync_put : (uninit : Item) → XanPipe → ℕ → Mutex → Cmd ((Ptr × XanPipe) × Mutex)
  sync_put uninit s v x = held (put uninit s v) x

  abbrev pub sync_put_at_end : (uninit : Item) → XanPipe → ℕ → Mutex → Cmd ((Ptr × XanPipe) × Mutex)
  sync_put_at_end uninit s v x = held (put_at_end uninit s v) x

  abbrev pub sync_move_to_end : XanPipe → ℕ → Mutex → Cmd ((Ptr × XanPipe) × Mutex)
  sync_move_to_end s v x = held (move_to_end s v) x

  abbrev pub sync_remove_item : XanPipe → (handle : Ptr) → Mutex → Cmd (XanPipe × Mutex)
  sync_remove_item s p x = held (remove_item s p) x

  abbrev pub sync_is_empty : XanPipe → Mutex → Cmd (Bool × Mutex)
  sync_is_empty s x = held (pure (is_empty s)) x
