-- ===== src/Xanlib/Queue.antt =====
-- xanlib/src/xanqueue.c: priority queues as binary heaps. The pointers in `items` below the size are
-- the items that they lead to, each with its address; the pointers behind it are NULL. Priorities are of
-- the type `float`, whose comparison is a parameter. An `int` does not overflow below 2 ^ 30 items, and
-- memory is always given. A failed assertion has no result.
pub mod Order
pub mod Array
pub mod Greatest
pub mod Shift
pub mod Ends
pub mod Extract
pub mod Heap
pub mod Handle
pub mod Sync
mod Tests
use cam_alias_checker.Prelude.{
  ℕ, zero, suc, ◌+◌, ◌-◌, ◌*◌, ◌/◌, Bool, true, false, ◌&&◌, Option, none, some, List, [], ◌∷◌,
  ◌++◌, length, get_elem?, set, take, ltb, leb, ◌==◌, if◌then◌else◌, ◌>>=◌,
}

pub record Priorities (P : Type 0) : Type 0 where
  -- `a <= b`
  pub le : P → P → Bool
  -- `-1.0`
  pub minus_one : P

pub record XanQueueItem (P : Type 0) : Type 0 where
  pub address : ℕ
  pub priority : P
  pub position : ℕ
  pub element : ℕ

-- The size is the length of `items`.
pub record XanQueue (P : Type 0) : Type 0 where
  pub items : List (XanQueueItem P)
  pub max_size : ℕ

abbrev pub default_heap_size : ℕ
default_heap_size = 15

abbrev pub heap_is_root : ℕ → Bool
heap_is_root r = r == 0

abbrev pub heap_is_leaf : (size r : ℕ) → Bool
heap_is_leaf n r = leb (n / 2) r

abbrev pub heap_parent : ℕ → ℕ
heap_parent r = (r - 1) / 2

abbrev pub heap_left_child : ℕ → ℕ
heap_left_child r = 2 * r + 1

abbrev pub heap_right_child : ℕ → ℕ
heap_right_child r = 2 * r + 2

module _ {P : Type 0} where
  abbrev pub new : XanQueue P
  new = record { items = []; max_size = default_heap_size }

  abbrev pub moved : XanQueueItem P → ℕ → XanQueueItem P
  moved x p = record x { position = p }

  -- `HEAP_SWAP_ITEM`; a NULL pointer has no result.
  unfoldable pub heap_swap_item :
      List (XanQueueItem P) → (p1 p2 : ℕ) → Option (List (XanQueueItem P))
  heap_swap_item a p1 p2 = do
    from ← get_elem? a p1
    to ← get_elem? a p2
    some (set (set a p2 (moved from p2)) p1 (moved to p1))

  -- the item that has an address
  unfoldable pub at_address : ℕ → List (XanQueueItem P) → Option (XanQueueItem P)
  at_address h [] = none
  at_address h (x ∷ xs) = let rest = at_address h xs in if x.address == h then some x else rest

  -- `assert(size > position); assert(items[position]->position == position)`
  abbrev pub position_is : Option (XanQueueItem P) → ℕ → Bool
  position_is none p = false
  position_is (some x) p = x.position == p

  abbrev pub is_at : List (XanQueueItem P) → ℕ → Bool
  is_at a p = position_is (get_elem? a p) p

  abbrev pub asserted : List (XanQueueItem P) × ℕ → Option (List (XanQueueItem P) × ℕ)
  asserted r = if is_at r.0 r.1 then some r else none

  unfoldable pub set_priority : (address : ℕ) → P → List (XanQueueItem P) → List (XanQueueItem P)
  set_priority h q [] = []
  set_priority h q (x ∷ xs) =
      let rest = set_priority h q xs in
      if x.address == h then record x { priority = q } ∷ xs else x ∷ rest

module _ {P : Type 0} ⦃float : Priorities P⦄ where
  -- the child that goes up, from the left and the right one
  abbrev pub chosen : Option (XanQueueItem P) → Option (XanQueueItem P) → (position : ℕ) → ℕ
  chosen none r p = heap_right_child p
  chosen (some l) none p = heap_left_child p
  chosen (some l) (some r) p =
      if float.le r.priority l.priority
      then heap_left_child p
      else if float.le l.priority r.priority
      then heap_right_child p
      else p

  unfoldable pub largest : List (XanQueueItem P) → (position : ℕ) → ℕ
  largest a p = chosen (get_elem? a (heap_left_child p)) (get_elem? a (heap_right_child p)) p

  -- The two loops give the array and the position where the item stands.
  unfoldable pub heap_shift_down :
      (fuel : ℕ) → List (XanQueueItem P) → ℕ → Option (List (XanQueueItem P) × ℕ)
  unfolding heap_swap_item largest
  heap_shift_down zero a p = none
  heap_shift_down (suc fuel) a p =
      let c = largest a p in
      let sink = heap_swap_item a p c >>= λ b. heap_shift_down fuel b c in
      let step = get_elem? a c >>= λ y.
      get_elem? a p >>= λ x. if float.le y.priority x.priority then some (a, p) else sink in
      if heap_is_leaf (length a) p then some (a, p) else step

  unfoldable pub heap_shift_up :
      (fuel : ℕ) → List (XanQueueItem P) → ℕ → Option (List (XanQueueItem P) × ℕ)
  unfolding heap_swap_item
  heap_shift_up zero a p = none
  heap_shift_up (suc fuel) a p =
      let c = heap_parent p in
      let rise = heap_swap_item a p c >>= λ b. heap_shift_up fuel b c in
      let step = get_elem? a p >>= λ x.
      get_elem? a c >>= λ y. if float.le x.priority y.priority then some (a, p) else rise in
      if heap_is_root p then some (a, p) else step

  -- up and then down
  unfoldable pub shift : List (XanQueueItem P) → ℕ → Option (List (XanQueueItem P))
  unfolding heap_shift_up heap_shift_down
  shift a p = do
    r ← heap_shift_up (p + 1) a p
    r' ← asserted r
    s ← heap_shift_down (length a + 1) r'.0 r'.1
    s' ← asserted s
    some s'.0

  -- The element of an item, and the array without it.
  unfoldable pub heap_extract_item :
      List (XanQueueItem P) → (position : ℕ) → Option (ℕ × List (XanQueueItem P))
  unfolding shift
  heap_extract_item a p =
      let n = length a - 1 in
      let at_end = get_elem? a n >>= λ x. some (x.element, take n a) in
      let inside : Option (ℕ × List (XanQueueItem P)) = heap_swap_item a p n >>= λ b.
      get_elem? b n >>= λ x.
      (if is_at (take n b) p then shift (take n b) p else none) >>= λ c. some (x.element, c) in
      if ltb p (length a) && is_at a p then if p == n then at_end else inside else none

  -- A queue that is empty makes the caller wait, and there is no result.
  unfoldable pub get : XanQueue P → Option (ℕ × XanQueue P)
  unfolding heap_extract_item
  get q = do
    r ← if length q.items == 0 then none else heap_extract_item q.items 0
    some (r.0, record q { items = r.1 })

  -- `address` is that of the new item.
  unfoldable pub put : (address element : ℕ) → P → XanQueue P → Option (XanQueue P)
  unfolding heap_shift_up heap_shift_down
  put h e r q =
      let n = length q.items in
      let x : XanQueueItem P = record { address = h; priority = r; position = n; element = e } in
      let m = if n == q.max_size then q.max_size + (n + 1) else q.max_size in
      heap_shift_up (n + 1) (q.items ++ x ∷ []) n >>= λ s.
      heap_shift_down (n + 1 + 1) s.0 s.1 >>= λ t.
      asserted t >>= λ t'. some (record { items = t'.0; max_size = m })

  -- the first item that has an element
  unfoldable pub find_element : ℕ → List (XanQueueItem P) → Option ℕ
  find_element e [] = none
  find_element e (x ∷ xs) =
      let rest = find_element e xs in if x.element == e then some x.address else rest

  abbrev pub find : XanQueue P → (element : ℕ) → Option ℕ
  find q e = find_element e q.items

  abbrev pub is_empty : XanQueue P → Bool
  is_empty q = length q.items == 0

  abbrev pub head_priority : XanQueue P → P
  head_priority q = elim q.items [ [] ↦ float.minus_one | ◌∷◌ x xs ↦ x.priority ]

  unfoldable pub change_item_priority : XanQueue P → (handle : ℕ) → P → Option (XanQueue P)
  unfolding shift
  change_item_priority q h r = do
    x ← at_address h q.items
    let a = set_priority h r q.items
    b ← if is_at a x.position then shift a x.position else none
    some (record q { items = b })

  unfoldable pub remove_item : XanQueue P → (handle : ℕ) → Option (XanQueue P)
  unfolding heap_extract_item
  remove_item q h = do
    x ← at_address h q.items
    r ← heap_extract_item q.items x.position
    some (record q { items = r.1 })
