-- ===== src/Libcam/Dependence.antt =====
-- libcam/src/dependence_analysis.cpp: whether two entries meet, and which pairs of instructions are
-- compared. Sets of instructions are lists; output is left out.
pub mod BruteForce
pub mod Menu
mod Tests
use cam_alias_checker.Prelude.{
  ℕ, zero, suc, ◌+◌, ◌-◌, ◌*◌, ◌/◌, ◌%◌, min, Bool, true, false, not, ◌&&◌, ◌||◌, Option, none,
  some, List, [], ◌∷◌, ◌++◌, map, ltb, leb, ◌==◌, if◌then◌else◌, ◌>>=◌, reverse,
}
use cam_alias_checker.Libcam.Machine.{word, sub_word, is_negative}
use cam_alias_checker.Libcam.DynamicGcd.{dynamic_gcd}
use cam_alias_checker.Libcam.MemSet.{
  MemSetEntry, Uninit, entry, get_num_instances, get_last, get_access_lower, get_access_upper,
  get_upper_extent, get_lower_extent, is_aligned, get_normalised,
  get_first_dynamic_instance_from_address,
}

-- the test of `isAliasBruteForce` on access `i` of `w` and access `j` of `r`
abbrev pub overlaps : (w r : MemSetEntry) (i j : ℕ) → Bool
overlaps w r i j =
    leb (get_access_lower w i) (get_access_upper r j)
    && leb (get_access_lower r j) (get_access_upper w i)

-- The inner loop of `isAliasBruteForce`: `n` rounds from `i` on.
unfoldable pub any_write : (n : ℕ) → (w r : MemSetEntry) → (i j : ℕ) → Bool
any_write zero w r i j = false
any_write (suc n) w r i j = if overlaps w r i j then true else any_write n w r (i + 1) j

-- Its outer loop.
unfoldable pub any_read : (n : ℕ) → (w r : MemSetEntry) → (j : ℕ) → Bool
any_read zero w r j = false
any_read (suc n) w r j =
    if any_write (get_num_instances w) w r 0 j then true else any_read n w r (j + 1)

unfoldable pub is_alias_brute_force : (w r : MemSetEntry) → Bool
is_alias_brute_force w r = any_read (get_num_instances r) w r 0

-- an entry with a positive stride for `dynamic_gcd`; a single address gets `stride`
abbrev pub for_gcd : Uninit → (stride : ℕ) → MemSetEntry → MemSetEntry
for_gcd u stride e =
    if e.stride == 0 then entry u e.base stride e.length 0 0 else get_normalised u e

-- `none` where a division by 0 has no result.
unfoldable pub is_alias : Uninit → (w r : MemSetEntry) → Option Bool
unfolding dynamic_gcd get_normalised
is_alias u w r =
    if w.stride == 0 && r.stride == 0
    then some true
    else if not (w.length == r.length)
    then some (is_alias_brute_force w r)
    else (do
      w_aligned ← is_aligned w
      r_aligned ← is_aligned r
      if not w_aligned || not r_aligned
          then some (is_alias_brute_force w r)
          else (let normal_write = for_gcd u w.length w in
              let normal_read = for_gcd u w.length r in
              do
                alias ←
                    dynamic_gcd normal_write.base normal_read.base (get_last normal_write)
                      (get_last normal_read) normal_write.stride normal_read.stride
                some (ltb 0 alias.2)))

-- addressA, memSetInstanceA, addressB, memSetInstanceB
abbrev pub Clash : Type 0
Clash = ℕ × ℕ × ℕ × ℕ

abbrev pub clash_at : (a b : MemSetEntry) (i j : ℕ) → Clash
clash_at a b i j = (get_access_lower a i, i, get_access_lower b j, j)

-- The inner loop of the last branch of `doBruteForceAliasAnalysis`: `n` rounds from `i` on.
unfoldable pub clashes_of : (n : ℕ) → (a b : MemSetEntry) → (i j : ℕ) → List Clash
clashes_of zero a b i j = []
clashes_of (suc n) a b i j =
    (if overlaps a b i j then clash_at a b i j ∷ [] else []) ++ clashes_of n a b (i + 1) j

unfoldable pub all_clashes : (n : ℕ) → (a b : MemSetEntry) → (j : ℕ) → List Clash
unfolding clashes_of
all_clashes zero a b j = []
all_clashes (suc n) a b j = clashes_of (get_num_instances a) a b 0 j ++ all_clashes n a b (j + 1)

-- The branch for two single addresses: every instance of one with every instance of the other.
unfoldable pub constant_row : (n : ℕ) → (a b : MemSetEntry) → (i j : ℕ) → List Clash
constant_row zero a b i j = []
constant_row (suc n) a b i j = clash_at a b i j ∷ constant_row n a b i (j + 1)

unfoldable pub constant_clashes : (n : ℕ) → (a b : MemSetEntry) → (i : ℕ) → List Clash
unfolding constant_row
constant_clashes zero a b i = []
constant_clashes (suc n) a b i =
    constant_row (get_num_instances b) a b i 0 ++ constant_clashes n a b (i + 1)

-- The inner loop of `doBruteForceAliasAnalysis_Constant_Variable`, over the instances of `constant`.
unfoldable pub variable_row :
    (n : ℕ)
    → (constant : MemSetEntry) → (constant_first : Bool) → (address instance j : ℕ) → List Clash
variable_row zero c first address k j = []
variable_row (suc n) c first address k j =
    (if first then (c.base, j, address, k) else (address, k, c.base, j))
    ∷ variable_row n c first address k (j + 1)

unfoldable pub variable_clashes :
    (n : ℕ)
    → (constant : MemSetEntry) → (constant_first backwards : Bool) → (stride address instance : ℕ)
    → List Clash
unfolding variable_row
variable_clashes zero c first back stride address k = []
variable_clashes (suc n) c first back stride address k =
    variable_row (get_num_instances c) c first address k 0
    ++ variable_clashes n c first back stride ((address + stride) % word)
        (if back then sub_word k 1 else (k + 1) % word)

unfoldable pub constant_variable :
    Uninit → (constant variable : MemSetEntry) → (constant_first : Bool) → List Clash
unfolding variable_clashes get_normalised get_first_dynamic_instance_from_address
constant_variable u c v first =
    let lower = c.base in
    let upper = get_upper_extent c in
    let normalised = get_normalised u v in
    let low = get_lower_extent normalised in
    let offset =
      if ltb low lower
      then sub_word 0 (sub_word lower low % normalised.stride)
      else sub_word low lower in
    let start = (lower + offset) % word in
    let width = sub_word (min upper (get_upper_extent normalised)) start in
    let count = (width / normalised.stride + 1) % word in
    let before = ltb (sub_word ((start + normalised.length) % word) 1) lower in
    let address = if before then (start + normalised.stride) % word else start in
    let rounds = if before then sub_word count 1 else count in
    variable_clashes rounds c first (is_negative v.stride) normalised.stride address
      (sub_word (get_first_dynamic_instance_from_address address v) v.start)

unfoldable pub do_brute_force_alias_analysis : Uninit → (a b : MemSetEntry) → List Clash
unfolding constant_variable all_clashes constant_clashes
do_brute_force_alias_analysis u a b =
    if a.stride == 0 && not (b.stride == 0)
    then constant_variable u a b true
    else if not (a.stride == 0) && b.stride == 0
    then constant_variable u b a false
    else if a.stride == 0 && b.stride == 0
    then constant_clashes (get_num_instances a) a b 0
    else all_clashes (get_num_instances b) a b 0

abbrev pub contains : List ℕ → ℕ → Bool
contains [] x = false
contains (y ∷ ys) x = (y == x) || contains ys x

unfoldable pub instruction_pair_is_in_instruction_trace :
    (instrs sub_instrs : List ℕ) → (a b : ℕ) → Bool
instruction_pair_is_in_instruction_trace instrs subs a b =
    if not (contains instrs a) && not (contains subs a)
    then false
    else if not (contains instrs b) && not (contains subs b)
    then false
    else true

-- the inner loops of `buildInstrPairMenu`: `w` with each of the others
unfoldable pub menu_row : (instrs subs : List ℕ) → (w : ℕ) → List ℕ → List (ℕ × ℕ)
unfolding instruction_pair_is_in_instruction_trace
menu_row instrs subs w [] = []
menu_row instrs subs w (r ∷ rs) =
    (if instruction_pair_is_in_instruction_trace instrs subs w r then (w, r) ∷ [] else [])
    ++ menu_row instrs subs w rs

unfoldable pub rw_menu : (instrs subs writes reads : List ℕ) → List (ℕ × ℕ)
unfolding menu_row
rw_menu instrs subs [] rs = []
rw_menu instrs subs (w ∷ ws) rs = menu_row instrs subs w rs ++ rw_menu instrs subs ws rs

unfoldable pub ww_menu : (instrs subs writes : List ℕ) → List (ℕ × ℕ)
unfolding menu_row
ww_menu instrs subs [] = []
ww_menu instrs subs (w ∷ ws) = menu_row instrs subs w (w ∷ ws) ++ ww_menu instrs subs ws

unfoldable pub build_instr_pair_menu :
    (instrs subs reads writes : List ℕ) → List (ℕ × ℕ) × List (ℕ × ℕ)
build_instr_pair_menu instrs subs rs ws = (rw_menu instrs subs ws rs, ww_menu instrs subs ws)
