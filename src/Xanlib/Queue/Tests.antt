-- ===== src/Xanlib/Queue/Tests.antt =====
-- The theorems on queues at a queue of three items, with numbers as priorities.
use cam_alias_checker.Prelude.{ℕ, zero, suc, ◌+◌, ◌≡◌, ◌<◌, refl, true, some, [], ◌∷◌, leb, arith}
use mathlib.Core.List.{Perm}
use cam_alias_checker.Xanlib.Queue.{
  Priorities, XanQueueItem, XanQueue, at_address, get, put, change_item_priority, remove_item,
}
use cam_alias_checker.Xanlib.Queue.Order.{IsOrder, IsHeap}
use cam_alias_checker.Xanlib.Queue.Array.{contents, key, IsPlaced}
use cam_alias_checker.Xanlib.Queue.Heap.{IsQueue, put-IsQueue, get-IsQueue}
use cam_alias_checker.Xanlib.Queue.Handle.{remove_item-IsQueue, change_item_priority-IsQueue}

instance numbers : Priorities ℕ
numbers = record { le = λ a b. leb a b; minus_one = 0 }

order : IsOrder numbers
unfolding numbers
order = record { total = λ a b h. ground (arith, h); trans = λ a b c h k. ground (arith, h, k) }

abbrev waiting : (address priority position : ℕ) → XanQueueItem ℕ
waiting h r p = record { address = h; priority = r; position = p; element = h + 1 }

-- as full as its array
abbrev three : XanQueue ℕ
three = record { items = waiting 10 9 0 ∷ waiting 20 5 1 ∷ waiting 30 7 2 ∷ []; max_size = 3 }

three-IsQueue : IsQueue three
unfolding numbers
three-IsQueue = record { placed = placed; heap = heap; room = omega arith; odd = omega arith }
  where
    placed : IsPlaced three.items
    placed zero h = refl
    placed (suc zero) h = refl
    placed (suc (suc zero)) h = refl
    placed (suc (suc (suc i))) h = absurd (omega (arith, h))

    heap : IsHeap 3 (key three.items)
    heap zero p h = absurd (omega (arith, p))
    heap (suc zero) p h = refl
    heap (suc (suc zero)) p h = refl
    heap (suc (suc (suc i))) p h = absurd (omega (arith, h))

put-IsQueue_example :
    (q' : XanQueue ℕ) × (put 40 41 8 three ≡ some q')
    × IsQueue q'
    × Perm (contents q'.items) ((40, 8, 41) ∷ contents three.items)
put-IsQueue_example = put-IsQueue order three three-IsQueue 40 41 8

get-IsQueue_example :
    (q' : XanQueue ℕ) × (get three ≡ some (11, q'))
    × IsQueue q'
    × Perm (contents three.items) ((10, 9, 11) ∷ contents q'.items)
    × ((j : ℕ) → j < 3 → numbers.le (key three.items j) 9 ≡ true)
get-IsQueue_example = get-IsQueue order three three-IsQueue (omega arith)

found : at_address 10 three.items ≡ some (waiting 10 9 0)
unfolding at_address
found = refl

remove_item-IsQueue_example :
    (q' : XanQueue ℕ) × (remove_item three 10 ≡ some q')
    × IsQueue q'
    × Perm (contents three.items) ((10, 9, 11) ∷ contents q'.items)
remove_item-IsQueue_example =
    remove_item-IsQueue order three three-IsQueue 10 (waiting 10 9 0) found

change_item_priority-IsQueue_example :
    (q' : XanQueue ℕ) × (change_item_priority three 10 1 ≡ some q')
    × IsQueue q'
    × Perm ((10, 9, 11) ∷ contents q'.items) ((10, 1, 11) ∷ contents three.items)
change_item_priority-IsQueue_example =
    change_item_priority-IsQueue order three three-IsQueue 10 (waiting 10 9 0) found 1
