-- ===== src/Libcam/MemoryParser.antt =====
-- libcam/src/memory_trace_parser.lex: the scanner that reads a memory trace, a number at a time. The
-- scanning of the digits is generated by flex.
pub mod Feed
pub mod Prefix
pub mod Entered
pub mod Dump
pub mod Traced
use cam_alias_checker.Prelude.{
  ℕ, ◌+◌, ◌%◌, Bool, true, false, not, ◌||◌, List, [], ◌∷◌, ◌++◌, ltb, leb, ◌==◌, if◌then◌else◌,
}
use cam_alias_checker.Libcam.Machine.{
  word, sub_word, is_negative, magnitude, Number, strtoull, strtoll,
}
use cam_alias_checker.Libcam.MemSet.{
  MemSetEntry, Uninit, MemSet, entry, is_trivial_pattern, split_trivial,
}

pub record MemoryTraceLex : Type 0 where
  pub state : ℕ
  pub remaining_groups : ℕ
  pub group_state : ℕ
  -- what the pointer `memset` leads to
  pub memset : MemSet
  pub curr_base : ℕ
  pub curr_stride : ℕ
  pub curr_length : ℕ
  pub curr_num_reps : ℕ
  pub last_access : ℕ
  pub num_instances_required : ℕ
  pub start_instance : ℕ
  pub next_expected_instance : ℕ

-- `MemoryTraceLex()` with a set to read to; `c` is what the constructor leaves uninitialised.
abbrev pub new_lex : (c : ℕ) → MemSet → (num_instances_required : ℕ) → MemoryTraceLex
new_lex c set required = record {
  state = 0;
  remaining_groups = 0;
  group_state = 0;
  memset = set;
  curr_base = c;
  curr_stride = c;
  curr_length = c;
  curr_num_reps = c;
  last_access = 0;
  num_instances_required = required;
  start_instance = 0;
  next_expected_instance = 0;
}

abbrev pub absolute_base : (last_access base_diff : ℕ) → ℕ
absolute_base a d = if is_negative d then sub_word a (magnitude d) else (a + d) % word

unfoldable pub get_absolute_base : Number → MemoryTraceLex → MemoryTraceLex
get_absolute_base t l =
    let b = absolute_base l.last_access (strtoll t) in record l { curr_base = b; last_access = b }

-- whether the set has the instances that are required
unfoldable pub has_required : MemoryTraceLex → MemSet → Bool
has_required l [] = false
has_required l (e ∷ []) =
    leb l.num_instances_required ((sub_word e.end l.start_instance + 1) % word)
has_required l (e ∷ f ∷ es) = has_required l (f ∷ es)

-- the number of groups, ahead of a state for the groups
abbrev pub read_size : Number → (full empty : ℕ) → MemoryTraceLex → MemoryTraceLex
read_size t full empty l =
    let n = strtoull t in
    if ltb 0 n
    then record l { remaining_groups = n; group_state = 0; state = full }
    else record l { remaining_groups = n; state = empty }

module _ (u : Uninit) where
  -- `set.push_back(...)`, with a trivial pattern split in two
  unfoldable pub pushed : MemSetEntry → MemSet
  unfolding is_trivial_pattern split_trivial
  pushed e =
      if is_trivial_pattern e then (split_trivial u e).0 ∷ (split_trivial u e).1 ∷ [] else e ∷ []

  unfoldable pub add_num_reps_to_set : MemoryTraceLex → MemoryTraceLex
  add_num_reps_to_set l =
      let next = (l.next_expected_instance + l.curr_num_reps) % word in
      record l {
        memset =
            l.memset
            ++ pushed (
                entry u l.curr_base l.curr_stride l.curr_length l.next_expected_instance
                  (sub_word next 1));
        next_expected_instance = next;
      }

  -- the last of the four numbers of an entry
  unfoldable pub read_num_reps : Number → MemoryTraceLex → MemoryTraceLex
  unfolding add_num_reps_to_set
  read_num_reps t l =
      let m = add_num_reps_to_set (record l { curr_num_reps = strtoull t }) in
      let left = sub_word m.remaining_groups 1 in
      record m {
        group_state = 0;
        remaining_groups = left;
        state = if left == 0 then (m.state + 1) % 5 else m.state;
      }

  unfoldable pub read_mem_set_entry : Number → MemoryTraceLex → MemoryTraceLex
  unfolding get_absolute_base read_num_reps
  read_mem_set_entry t l =
      if l.group_state == 0
      then (let m = get_absolute_base t l in record m { group_state = m.group_state + 1 })
      else if l.group_state == 1
      then record l { curr_stride = strtoll t; group_state = l.group_state + 1 }
      else if l.group_state == 2
      then record l { curr_length = strtoull t; group_state = l.group_state + 1 }
      else if l.group_state == 3
      then read_num_reps t l
      else l

  -- The action for a number, and whether the scanner returns after it.
  unfoldable pub lex_number : Number → MemoryTraceLex → MemoryTraceLex × Bool
  unfolding read_mem_set_entry has_required
  lex_number t l =
      if l.state == 0
      then (record l { last_access = 0; state = 1 }, false)
      else if l.state == 1
      then (read_size t 2 3 l, false)
      else if l.state == 3
      then (read_size t 4 0 l, false)
      else if l.state == 2 || l.state == 4
      then (let m = read_mem_set_entry t l in (m, has_required m m.memset))
      else (l, false)
