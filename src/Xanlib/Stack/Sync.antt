-- ===== src/Xanlib/Stack/Sync.antt =====
-- The functions of xanlib/src/xanstack.c that hold the mutex of the stack. The mutex of the platform
-- is a parameter: a lock that never returns and a failed call have no result.
use cam_alias_checker.Prelude.{ℕ, Bool, Option, none, some, List, ◌∷◌, ◌≡◌, arith}
use cam_alias_checker.Xanlib.LinkedList.Memory.{Item, Memory, Cmd, ◌>>=◌, pure}
use cam_alias_checker.Xanlib.LinkedList.Allocate.{CanCycle, CanCycle-CanAllocate}
use cam_alias_checker.Xanlib.Stack.{XanStack, push, pop, top, get_size, contains}
use cam_alias_checker.Xanlib.Stack.Lifo.{IsStack, push-IsStack, pop-IsStack}

module _ {Mutex : Type 0} (lock unlock : Mutex → Option Mutex) where
  unfoldable pub call : (Mutex → Option Mutex) → Mutex → Cmd Mutex
  call f x m = elim (f x) [ none ↦ none | some y ↦ some (y, m) ]

  unfoldable pub sync_push : (uninit : Item) → XanStack → Mutex → ℕ → Cmd (XanStack × Mutex)
  sync_push uninit s x v = do y ← call lock x; s' ← push uninit s v; z ← call unlock y; pure (s', z)

  unfoldable pub sync_pop : XanStack → Mutex → Cmd (Option ℕ × XanStack × Mutex)
  sync_pop s x = do y ← call lock x; (v, s') ← pop s; z ← call unlock y; pure (v, s', z)

  unfoldable pub sync_top : XanStack → Mutex → Cmd (ℕ × Mutex)
  sync_top s x = do y ← call lock x; v ← top s; z ← call unlock y; pure (v, z)

  unfoldable pub sync_get_size : XanStack → Mutex → Cmd (ℕ × Mutex)
  sync_get_size s x = do y ← call lock x; let size = get_size s; z ← call unlock y; pure (size, z)

  unfoldable pub sync_contains : XanStack → Mutex → ℕ → Cmd (Bool × Mutex)
  unfolding contains
  sync_contains s x v = do y ← call lock x; found ← contains s v; z ← call unlock y; pure (found, z)

  -- If locking a free mutex holds it and unlocking frees it again, a `xanStack_syncPush` with room
  -- to take an item and to free one and then a `xanStack_syncPop` end with the pushed pointer, a stack of the
  -- pointers from before and a free mutex.
  pub sync_pop-sync_push :
      (uninit : Item) (m : Memory) (s : XanStack) (vs : List ℕ) (x : ℕ) (free held : Mutex)
      → lock free ≡ some held
      → unlock held ≡ some free
      → IsStack m s vs
      → CanCycle m s.internal_list
      → (m' : Memory) × (s' : XanStack) × ((sync_push uninit s free x >>= (λ r. sync_pop r.0 r.1)) m
          ≡ some ((some x, s', free), m'))
        × IsStack m' s' vs
  unfolding sync_push sync_pop call
  sync_pop-sync_push uninit m s vs x free held locks unlocks v c =
      let (m1, s1, run, w, room) =
        push-IsStack uninit m s vs x v (CanCycle-CanAllocate m s.internal_list c) in
      let (m2, s2, run', w') = pop-IsStack m1 s1 (x ∷ vs) w (room c) in
      (m2, s2, ground (arith, locks, unlocks, run, run'), w')
