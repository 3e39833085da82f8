-- ===== src/Libcam/CallTrace.antt =====
-- libcam/src/CallTrace.{h,cpp}: the instances of a call that have one control flow, and a call with all its
-- groups of instances. A lookup has the place of a group in the vector of a call where the source has a
-- pointer to it. A function that reads an end of an empty vector has the result `none`.
pub mod Numbers
pub mod Ends
pub mod Flow
pub mod Holders
pub mod Extremes
pub mod Join
pub mod Choice
pub mod Taken
pub mod Once
pub mod Merge
mod Tests
use cam_alias_checker.Prelude.{
  ℕ, zero, suc, ◌+◌, Bool, true, false, not, ◌||◌, Option, none, some, List, [], ◌∷◌, ◌++◌, length,
  get_elem?, set, ltb, ◌==◌, if◌then◌else◌, ◌>>=◌,
}
use cam_alias_checker.Libcam.Repetition.{
  RepetitionPattern, Range, add_pair, is_singleton, get_first_instance, get_last_instance,
  remove_first_instance, remove_last_instance,
}
use cam_alias_checker.Libcam.Repetition.Built
use cam_alias_checker.Libcam.CompressionPattern.{
  CompressionPattern, copied, Counts, add_counts, get_number_of_instances_map,
}

pub record CallTraceInstanceGroup : Type 0 where
  pub repetitions : RepetitionPattern
  pub control_flow : List CompressionPattern
  pub num_instances_lut : Counts

abbrev pub new_group : CallTraceInstanceGroup
new_group = record { repetitions = []; control_flow = []; num_instances_lut = [] }

-- the constructor for one instance
abbrev pub one_instance : ℕ → List CompressionPattern → CallTraceInstanceGroup
one_instance n cf = record {
  repetitions = add_pair n n [];
  control_flow = cf;
  num_instances_lut = [];
}

abbrev pub add_pattern : CallTraceInstanceGroup → (start end : ℕ) → CallTraceInstanceGroup
add_pattern g s e = record g { repetitions = add_pair s e g.repetitions }

-- The patterns in a vector are copies, and a copy of a copy is the same.
abbrev pub add_control_flow : CallTraceInstanceGroup → CompressionPattern → CallTraceInstanceGroup
add_control_flow g p = record g { control_flow = g.control_flow ++ copied p ∷ [] }

abbrev pub is_single_instance : CallTraceInstanceGroup → Bool
is_single_instance g = is_singleton g.repetitions

abbrev pub first_instance : CallTraceInstanceGroup → Option ℕ
first_instance g = get_first_instance g.repetitions

abbrev pub last_instance : CallTraceInstanceGroup → Option ℕ
last_instance g = get_last_instance g.repetitions

-- The instance in a group of its own, and what is left.
unfoldable pub extract_first_instance :
    CallTraceInstanceGroup → Option (CallTraceInstanceGroup × CallTraceInstanceGroup)
unfolding remove_first_instance
extract_first_instance g = do
  n ← first_instance g
  rs ← remove_first_instance g.repetitions
  some (one_instance n g.control_flow, record g { repetitions = rs })

unfoldable pub extract_last_instance :
    CallTraceInstanceGroup → Option (CallTraceInstanceGroup × CallTraceInstanceGroup)
unfolding remove_last_instance
extract_last_instance g = do
  n ← last_instance g
  rs ← remove_last_instance g.repetitions
  some (one_instance n g.control_flow, record g { repetitions = rs })

-- the loop over the control flow, which adds up the numbers of instances
unfoldable pub count_all : List CompressionPattern → Counts → Counts
unfolding get_number_of_instances_map add_counts
count_all [] m = m
count_all (p ∷ ps) m = count_all ps (add_counts 1 (get_number_of_instances_map p) m)

abbrev pub build_number_of_instances_lut : CallTraceInstanceGroup → CallTraceInstanceGroup
build_number_of_instances_lut g = record g { num_instances_lut = count_all g.control_flow [] }

pub record CallTraceCall : Type 0 where
  pub call_instances : List CallTraceInstanceGroup
  pub lut : List (Range ℕ)

abbrev pub add_call_instance : CallTraceCall → CallTraceCall
add_call_instance c = record c { call_instances = c.call_instances ++ new_group ∷ [] }

-- a change of the last group
unfoldable pub change_last :
    (CallTraceInstanceGroup → CallTraceInstanceGroup)
    → List CallTraceInstanceGroup
    → Option (List CallTraceInstanceGroup)
change_last f [] = none
change_last f (g ∷ []) = some (f g ∷ [])
change_last f (g ∷ h ∷ gs) = do rest ← change_last f (h ∷ gs); some (g ∷ rest)

unfoldable pub add_call_pattern : CallTraceCall → (start end : ℕ) → Option CallTraceCall
unfolding change_last
add_call_pattern c s e = do
  gs ← change_last (λ g. add_pattern g s e) c.call_instances
  some (record c { call_instances = gs })

unfoldable pub add_call_cfc : CallTraceCall → CompressionPattern → Option CallTraceCall
unfolding change_last
add_call_cfc c p = do
  gs ← change_last (λ g. add_control_flow g p) c.call_instances
  some (record c { call_instances = gs })

-- The library's `max_element` and `min_element`, from the place `best` whose number is `n`: the first
-- group whose last instance is the greatest, and the first whose first instance is the least.
unfoldable pub max_from : (best n place : ℕ) → List CallTraceInstanceGroup → Option (ℕ × ℕ)
max_from best n place [] = some (best, n)
max_from best n place (g ∷ gs) =
    let kept = max_from best n (suc place) gs in
    last_instance g >>= λ k.
    let taken = max_from place k (suc place) gs in if ltb n k then taken else kept

unfoldable pub min_from : (best n place : ℕ) → List CallTraceInstanceGroup → Option (ℕ × ℕ)
min_from best n place [] = some (best, n)
min_from best n place (g ∷ gs) =
    let kept = min_from best n (suc place) gs in
    first_instance g >>= λ k.
    let taken = min_from place k (suc place) gs in if ltb k n then taken else kept

-- the place of the element, and its last or first instance
unfoldable pub max_existing : List CallTraceInstanceGroup → Option (ℕ × ℕ)
unfolding max_from
max_existing [] = none
max_existing (g ∷ gs) = do k ← last_instance g; max_from 0 k 1 gs

unfoldable pub min_new : List CallTraceInstanceGroup → Option (ℕ × ℕ)
unfolding min_from
min_new [] = none
min_new (g ∷ gs) = do k ← first_instance g; min_from 0 k 1 gs

-- The control flow `cf` comes to the last instance of the group at a place: to the group, if it has no other
-- instance, and otherwise to a new group behind the others.
unfoldable pub join_at :
    ℕ → List CompressionPattern → List CallTraceInstanceGroup → Option (List CallTraceInstanceGroup)
unfolding extract_last_instance
join_at i cf gs = do
  g ← get_elem? gs i
  let joined : CallTraceInstanceGroup → CallTraceInstanceGroup =
      λ h. record h { control_flow = h.control_flow ++ cf }
  let apart = extract_last_instance g >>= λ r. some (set gs i r.1 ++ joined r.0 ∷ [])
  if is_single_instance g then some (set gs i (joined g)) else apart

-- The groups of the other call, without the instance that was joined.
unfoldable pub without_joined :
    ℕ → List CallTraceInstanceGroup → Option (List CallTraceInstanceGroup)
unfolding extract_first_instance
without_joined i [] = some []
without_joined zero (g ∷ gs) =
    let apart = extract_first_instance g >>= λ r. some (r.1 ∷ gs) in
    if is_single_instance g then some gs else apart
without_joined (suc i) (g ∷ gs) = do rest ← without_joined i gs; some (g ∷ rest)

-- What the loop leaves of the other call's vector: the group of the joined instance, if it has another one,
-- is without it.
unfoldable pub left_over : ℕ → List CallTraceInstanceGroup → Option (List CallTraceInstanceGroup)
unfolding extract_first_instance
left_over i hs = do
  h ← get_elem? hs i
  let apart = extract_first_instance h >>= λ r. some (set hs i r.1)
  if is_single_instance h then some hs else apart

-- The branch where neither call is empty gives the groups of both.
unfoldable pub merge_groups :
    List CallTraceInstanceGroup
    → List CallTraceInstanceGroup
    → Option (List CallTraceInstanceGroup × List CallTraceInstanceGroup)
unfolding max_existing min_new join_at without_joined left_over
merge_groups gs hs = do
  m ← max_existing gs
  n ← min_new hs
  let joined : Option (List CallTraceInstanceGroup × List CallTraceInstanceGroup) =
      get_elem? hs n.0 >>= λ h. join_at m.0 h.control_flow gs >>= λ gs'.
      without_joined n.0 hs >>= λ more. left_over n.0 hs >>= λ hs'. some (gs' ++ more, hs')
  if m.1 == n.1 then joined else some (gs ++ hs, hs)

-- the call, and the other one, which changes too
unfoldable pub add_call_trace_call :
    CallTraceCall → (other : CallTraceCall) → Option (CallTraceCall × CallTraceCall)
unfolding merge_groups
add_call_trace_call c d =
    let both = c.call_instances ++ d.call_instances in
    let merged : Option (CallTraceCall × CallTraceCall) =
      merge_groups c.call_instances d.call_instances >>= λ r.
      some (record c { call_instances = r.0 }, record d { call_instances = r.1 }) in
    if (length c.call_instances == 0) || (length d.call_instances == 0)
    then some (record c { call_instances = both }, d)
    else merged

-- each group's pattern with the place of the group
unfoldable pub lut_input : (place : ℕ) → List CallTraceInstanceGroup → List (RepetitionPattern × ℕ)
lut_input i [] = []
lut_input i (g ∷ gs) = (g.repetitions, i) ∷ lut_input (suc i) gs

unfoldable pub build_numbers : List CallTraceInstanceGroup → List CallTraceInstanceGroup
unfolding count_all
build_numbers [] = []
build_numbers (g ∷ gs) = build_number_of_instances_lut g ∷ build_numbers gs

unfoldable pub build_call_lut : CallTraceCall → CallTraceCall
unfolding lut_input build_numbers Built.range_map
build_call_lut c = record {
  call_instances = build_numbers c.call_instances;
  lut = Built.build_lut (lut_input 0 c.call_instances) c.lut;
}

unfoldable pub get_instance_group : CallTraceCall → ℕ → Option CallTraceInstanceGroup
unfolding Built.first_reaching
get_instance_group c n = do i ← Built.lookup_built n c.lut; get_elem? c.call_instances i

abbrev pub is_empty_call : CallTraceCall → Bool
is_empty_call c = length c.call_instances == 0

abbrev pub call_instance_begin : CallTraceCall → ℕ × ℕ
call_instance_begin c = Built.begin c.lut

unfoldable pub call_instance_next : CallTraceCall → ℕ × ℕ → Option (ℕ × ℕ)
unfolding Built.next
call_instance_next c it = Built.next c.lut it

abbrev pub call_instance_end : CallTraceCall → ℕ × ℕ
call_instance_end c = Built.end_of c.lut
