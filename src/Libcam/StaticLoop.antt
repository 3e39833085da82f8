-- ===== src/Libcam/StaticLoop.antt =====
-- IterationGroupCfc and InvocationGroupCfc of libcam/src/StaticLoopRec.{h,cpp}: the iterations of a loop that
-- have one control flow, and an invocation of a loop with all its groups of iterations. A group has the
-- fields of CallTraceInstanceGroup and the same functions that add and extract. A lookup has the place of a
-- group in the vector where the source has a pointer to it. What reads an end of an empty vector, and a
-- division by 0, have no result. A `map` is a list of entries.
pub mod Laps
pub mod Entries
pub mod Lookup
pub mod Ranges
pub mod Instances
pub mod Iterations
pub mod Precompute
pub mod Sums
pub mod Totals
pub mod Merge
mod Tests
use cam_alias_checker.Prelude.{
  ℕ, zero, suc, ◌+◌, ◌-◌, ◌*◌, ◌/◌, ◌%◌, Bool, true, false, ◌&&◌, Option, none, some, List, [], ◌∷◌,
  ◌++◌, length, get_elem?, set, ltb, ◌==◌, if◌then◌else◌, ◌>>=◌,
}
use cam_alias_checker.Libcam.Machine.{word, sub_word}
use cam_alias_checker.Libcam.CompressionPattern.{CompressionPattern, Counts, add_count, add_counts}
use cam_alias_checker.Libcam.CompressionPattern.Ordered.{count_at}
use cam_alias_checker.Libcam.Repetition.{RepetitionPattern, Range}
use cam_alias_checker.Libcam.Repetition.Built
use cam_alias_checker.Libcam.CallTrace
use cam_alias_checker.Libcam.CallTrace.{
  CallTraceInstanceGroup, new_group, add_pattern, add_control_flow, change_last, count_all,
  lut_input, merge_groups,
}

abbrev pub IterationGroupCfc : Type 0
IterationGroupCfc = CallTraceInstanceGroup

abbrev pub is_empty_group : IterationGroupCfc → Bool
is_empty_group g = (length g.control_flow == 0) && (length g.num_instances_lut == 0)

abbrev pub add_iteration : IterationGroupCfc → (iteration : ℕ) → IterationGroupCfc
add_iteration g n = add_pattern g n n

-- The control flow is thrown away.
abbrev pub build_iteration_numbers : IterationGroupCfc → IterationGroupCfc
build_iteration_numbers g = record g {
  num_instances_lut = count_all g.control_flow [];
  control_flow = [];
}

-- A look up by `[]` leaves an entry of 0 where there was none.
abbrev pub look_up : ℕ → Counts → ℕ × Counts
look_up s m = (count_at s m, add_count s 0 m)

abbrev pub get_number_of_instances : IterationGroupCfc → ℕ → ℕ × IterationGroupCfc
get_number_of_instances g s =
    let r = look_up s g.num_instances_lut in (r.0, record g { num_instances_lut = r.1 })

-- `end - start + 1`
abbrev pub iterations_in : (start end : ℕ) → ℕ
iterations_in s e = (sub_word e s + 1) % word

unfoldable pub number_of_iterations_from : RepetitionPattern → ℕ → ℕ
number_of_iterations_from [] n = n
number_of_iterations_from (r ∷ rs) n =
    number_of_iterations_from rs ((n + iterations_in r.0 r.1) % word)

abbrev pub get_number_of_iterations_slow : IterationGroupCfc → ℕ
get_number_of_iterations_slow g = number_of_iterations_from g.repetitions 0

-- The first and the last instance of an instruction in some iterations, the first of these, and the number
-- of instances in each of them.
abbrev pub InstructionInstanceLutEntry : Type 0
InstructionInstanceLutEntry = Range (ℕ × ℕ)

abbrev pub InstanceLut : Type 0
InstanceLut = List (ℕ × List InstructionInstanceLutEntry)

pub record InvocationGroupCfc : Type 0 where
  pub iterations : List IterationGroupCfc
  pub invocation_instances_lut : Counts
  pub instruction_instance_lut : InstanceLut
  pub iter_lut : List (Range ℕ)

unfoldable pub all_empty : List IterationGroupCfc → Bool
all_empty [] = true
all_empty (g ∷ gs) = is_empty_group g && all_empty gs

abbrev pub is_empty_invocation : InvocationGroupCfc → Bool
is_empty_invocation v = if length v.iterations == 0 then true else all_empty v.iterations

abbrev pub num_iteration_groups : InvocationGroupCfc → ℕ
num_iteration_groups v = length v.iterations

abbrev pub get_num_instances : InvocationGroupCfc → ℕ → ℕ × InvocationGroupCfc
get_num_instances v s =
    let r = look_up s v.invocation_instances_lut in
    (r.0, record v { invocation_instances_lut = r.1 })

abbrev pub contains_instruction : InvocationGroupCfc → ℕ → Bool × InvocationGroupCfc
contains_instruction v s = let r = get_num_instances v s in (ltb 0 r.0, r.1)

abbrev pub get_number_of_iterations : InvocationGroupCfc → Option ℕ
get_number_of_iterations v = do n ← Built.last_end v.iter_lut; some ((n + 1) % word)

abbrev pub add_iteration_group : InvocationGroupCfc → InvocationGroupCfc
add_iteration_group v = record v { iterations = v.iterations ++ new_group ∷ [] }

unfoldable pub add_iteration_pattern :
    InvocationGroupCfc → (start end : ℕ) → Option InvocationGroupCfc
unfolding change_last
add_iteration_pattern v s e = do
  gs ← change_last (λ g. add_pattern g s e) v.iterations
  some (record v { iterations = gs })

unfoldable pub add_one_iteration : InvocationGroupCfc → (iteration : ℕ) → Option InvocationGroupCfc
unfolding change_last
add_one_iteration v n = do
  gs ← change_last (λ g. add_iteration g n) v.iterations
  some (record v { iterations = gs })

unfoldable pub add_cfc : InvocationGroupCfc → CompressionPattern → Option InvocationGroupCfc
unfolding change_last
add_cfc v p = do
  gs ← change_last (λ g. add_control_flow g p) v.iterations
  some (record v { iterations = gs })

abbrev pub iteration_iterator_begin : InvocationGroupCfc → ℕ × ℕ
iteration_iterator_begin v = Built.begin v.iter_lut

unfoldable pub iteration_iterator_next : InvocationGroupCfc → ℕ × ℕ → Option (ℕ × ℕ)
unfolding Built.next
iteration_iterator_next v it = Built.next v.iter_lut it

abbrev pub iteration_iterator_end : InvocationGroupCfc → ℕ × ℕ
iteration_iterator_end v = Built.end_of v.iter_lut

abbrev pub get_iteration_from_ii : InvocationGroupCfc → ℕ × ℕ → Option IterationGroupCfc
get_iteration_from_ii v it = do i ← Built.get_data_from_ii v.iter_lut it; get_elem? v.iterations i

abbrev pub get_start_iteration_from_ii : InvocationGroupCfc → ℕ × ℕ → Option ℕ
get_start_iteration_from_ii v it = Built.get_start_from_ii v.iter_lut it

abbrev pub get_num_iterations_from_ii : InvocationGroupCfc → ℕ × ℕ → Option ℕ
get_num_iterations_from_ii v it = do
  e ← Built.get_end_from_ii v.iter_lut it
  s ← Built.get_start_from_ii v.iter_lut it
  some (iterations_in s e)

abbrev pub get_num_instances_from_ii :
    InvocationGroupCfc → ℕ × ℕ → (instruction : ℕ) → Option (ℕ × InvocationGroupCfc)
get_num_instances_from_ii v it s = do
  i ← Built.get_data_from_ii v.iter_lut it
  g ← get_elem? v.iterations i
  let r = get_number_of_instances g s
  some (r.0, record v { iterations = set v.iterations i r.1 })

abbrev pub get_iteration_number_from_ii : ℕ × ℕ → ℕ
get_iteration_number_from_ii it = Built.get_range_num_from_ii it

abbrev pub get_iteration_group : InvocationGroupCfc → (iteration : ℕ) → Option IterationGroupCfc
get_iteration_group v n = do i ← Built.lookup_built n v.iter_lut; get_elem? v.iterations i

-- The invocation with the iterations of the other one, and the other one, which changes too. The least of
-- its iterations is read even if it has none.
unfoldable pub merge_iteration_info :
    InvocationGroupCfc
    → (other : InvocationGroupCfc) → Option (InvocationGroupCfc × InvocationGroupCfc)
unfolding merge_groups
merge_iteration_info v w =
    let merged : Option (InvocationGroupCfc × InvocationGroupCfc) =
      merge_groups v.iterations w.iterations >>= λ r.
      some (record v { iterations = r.0 }, record w { iterations = r.1 }) in
    if length v.iterations == 0 then some (record v { iterations = w.iterations }, w) else merged

unfoldable pub build_all_iteration_numbers : List IterationGroupCfc → List IterationGroupCfc
unfolding count_all
build_all_iteration_numbers [] = []
build_all_iteration_numbers (g ∷ gs) = build_iteration_numbers g ∷ build_all_iteration_numbers gs

unfoldable pub build_invocation_numbers : List IterationGroupCfc → Counts → Counts
unfolding number_of_iterations_from add_counts
build_invocation_numbers [] m = m
build_invocation_numbers (g ∷ gs) m =
    build_invocation_numbers gs (add_counts (get_number_of_iterations_slow g) g.num_instances_lut m)

-- `n` iterations from `start` on, with `c` instances in each: they come to the last entry, if they go on
-- where it ends and have as many instances, and otherwise to a new one.
unfoldable pub add_entry :
    (c n start : ℕ) → List InstructionInstanceLutEntry → Option (List InstructionInstanceLutEntry)
add_entry c n s [] = some ((0, sub_word (c * n % word) 1, (s, c)) ∷ [])
add_entry c n s (e ∷ []) =
    let last = (e.1 + c * n) % word in
    let apart = some (e ∷ ((e.1 + 1) % word, last, (s, c)) ∷ []) in
    let goes_on = s == (e.2.0 + iterations_in e.0 e.1 / e.2.1) % word in
    if e.2.1 == c
    then if c == 0 then none else if goes_on then some ((e.0, last, e.2) ∷ []) else apart
    else apart
add_entry c n s (e ∷ f ∷ es) = do rest ← add_entry c n s (f ∷ es); some (e ∷ rest)

abbrev pub entries_at : ℕ → InstanceLut → List InstructionInstanceLutEntry
entries_at s [] = []
entries_at s (x ∷ xs) = if s == x.0 then x.1 else entries_at s xs

-- a change of what an instruction has
unfoldable pub alter_entries :
    ℕ
    → (List InstructionInstanceLutEntry → Option (List InstructionInstanceLutEntry))
    → InstanceLut
    → Option InstanceLut
alter_entries s f [] = do es ← f []; some ((s, es) ∷ [])
alter_entries s f (x ∷ xs) =
    let rest = alter_entries s f xs >>= λ m. some (x ∷ m) in
    let here = f x.1 >>= λ es. some ((x.0, es) ∷ xs) in if s == x.0 then here else rest

-- the loop over the instructions of `n` iterations from `start` on
unfoldable pub add_range : (n start : ℕ) → Counts → InstanceLut → Option InstanceLut
unfolding alter_entries add_entry
add_range n start [] m = some m
add_range n start (x ∷ xs) m = do
  m' ← alter_entries x.0 (add_entry x.1 n start) m
  add_range n start xs m'

-- the loop over the ranges of iterations
unfoldable pub build_instances :
    List (Range ℕ) → List IterationGroupCfc → InstanceLut → Option InstanceLut
unfolding add_range
build_instances [] gs m = some m
build_instances (x ∷ xs) gs m = do
  g ← get_elem? gs x.2
  m' ← add_range (iterations_in x.0 x.1) x.0 g.num_instances_lut m
  build_instances xs gs m'

unfoldable pub precompute : InvocationGroupCfc → Option InvocationGroupCfc
unfolding build_all_iteration_numbers lut_input Built.range_map build_invocation_numbers
    build_instances
precompute v = do
  let gs = build_all_iteration_numbers v.iterations
  let lut = Built.build_lut (lut_input 0 gs) []
  m ← build_instances lut gs v.instruction_instance_lut
  some record {
    iterations = gs;
    invocation_instances_lut = build_invocation_numbers gs [];
    instruction_instance_lut = m;
    iter_lut = lut;
  }

-- A look up by `[]` leaves no entries where there were none, and then the end of these is read.
unfoldable pub get_iteration_number :
    InvocationGroupCfc → (instruction instance_number : ℕ) → Option ℕ
unfolding Built.first_reaching
get_iteration_number v s k = do
  o ← Built.first_reaching k (entries_at s v.instruction_instance_lut)
  e ← o
  if e.2.1 == 0 then none else some ((e.2.0 + sub_word k e.0 / e.2.1) % word)

abbrev pub clear_invocation : InvocationGroupCfc → InvocationGroupCfc
clear_invocation v = record {
  iterations = [];
  invocation_instances_lut = [];
  instruction_instance_lut = [];
  iter_lut = [];
}
