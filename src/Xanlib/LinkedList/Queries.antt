-- ===== src/Xanlib/LinkedList/Queries.antt =====
-- The functions of xanlib/src/xanlist.c that read lists. A loop over a list of length `n` has fuel
-- `n + 1`: a round for each item and one for the end.
use cam_alias_checker.Prelude.{
  ℕ, zero, suc, ◌+◌, ◌-◌, Bool, true, false, Option, none, some, ◌==◌, leb, if◌then◌else◌,
}
use cam_alias_checker.Xanlib.LinkedList.Memory.{Ptr, null, Cmd, ◌>>=◌, pure, fail, load}
use cam_alias_checker.Xanlib.LinkedList.Items.{XanList, first}

-- `xanList_find`: the first item that holds the pointer, or NULL
unfoldable pub find_from : ℕ → ℕ → Ptr → Cmd Ptr
unfolding load
find_from zero x p = fail
find_from (suc fuel) x p =
    if p == null
    then pure null
    else (do i ← load p; if i.value == x then pure p else find_from fuel x i.next)

unfoldable pub find : XanList → ℕ → Cmd Ptr
unfolding find_from
find l x = find_from (l.len + 1) x (first l)

-- `xanList_getPositionNumberFromElement`; `none` is the result -1.
unfoldable pub position_from : ℕ → ℕ → ℕ → Ptr → Cmd (Option ℕ)
unfolding load
position_from zero x count p = fail
position_from (suc fuel) x count p = if p == null then pure none else (do
  i ← load p
  if i.value == x then pure (some count) else position_from fuel x (count + 1) i.next)

unfoldable pub get_position_number_from_element : XanList → ℕ → Cmd (Option ℕ)
unfolding position_from
get_position_number_from_element l x = position_from (l.len + 1) x 0 (first l)

-- the loop of `xanList_getElementFromPositionNumber`, with the `abort()` behind it
unfoldable pub element_from : ℕ → ℕ → ℕ → Ptr → Cmd Ptr
unfolding load
element_from zero n count p = fail
element_from (suc fuel) n count p =
    if p == null
    then fail
    else if count == n
    then pure p
    else (do i ← load p; element_from fuel n (count + 1) i.next)

-- for a position that is not negative
unfoldable pub get_element_from_position_number : XanList → ℕ → Cmd Ptr
unfolding element_from
get_element_from_position_number l n =
    if leb l.len n
    then pure null
    else if n == 0
    then pure l.first_item
    else if n == l.len - 1
    then pure l.last_item
    else element_from (l.len + 1) n 0 (first l)

-- The inner loop of `xanList_shareSomeElements` looks for the pointer in the other list.
unfoldable pub shares_from : ℕ → XanList → Ptr → Cmd Bool
unfolding load find
shares_from zero other p = fail
shares_from (suc fuel) other p = if p == null then pure false else (do
  i ← load p
  q ← find other i.value
  if q == null then shares_from fuel other i.next else pure true)

unfoldable pub share_some_elements : XanList → XanList → Cmd Bool
unfolding shares_from
share_some_elements l other = shares_from (l.len + 1) other (first l)

-- the loop of `xanList_containsAllElements`, and of `xanList_containsTheSameElements`
unfoldable pub all_found_from : ℕ → XanList → Ptr → Cmd Bool
unfolding load find
all_found_from zero other p = fail
all_found_from (suc fuel) other p = if p == null then pure true else (do
  i ← load p
  q ← find other i.value
  if q == null then pure false else all_found_from fuel other i.next)

unfoldable pub contains_all_elements : XanList → XanList → Cmd Bool
unfolding all_found_from
contains_all_elements sub super = all_found_from (sub.len + 1) super (first sub)

unfoldable pub contains_the_same_elements : XanList → XanList → Cmd Bool
unfolding all_found_from
contains_the_same_elements l other =
    if l.len == other.len then all_found_from (l.len + 1) other (first l) else pure false

-- `xanList_equalsInstancesNumber`
unfoldable pub count_from : ℕ → ℕ → ℕ → Ptr → Cmd ℕ
unfolding load
count_from zero x num p = fail
count_from (suc fuel) x num p =
    if p == null
    then pure num
    else (do i ← load p; count_from fuel x (if i.value == x then num + 1 else num) i.next)

unfoldable pub equals_instances_number : XanList → ℕ → Cmd ℕ
unfolding count_from
equals_instances_number l x = count_from (l.len + 1) x 0 (first l)
