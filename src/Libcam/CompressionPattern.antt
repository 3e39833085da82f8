-- ===== src/Libcam/CompressionPattern.antt =====
-- libcam/src/CompressionPattern.{h,cpp}: the patterns that a reader builds from a trace. A pattern without a
-- child is a symbol. A pattern owns its child, so that a child is a value here, and the calls of `new`
-- and `delete` leave no trace. A copy of a pattern with a child has the symbol 0.
pub mod Count
pub mod Ordered
mod Tests
use cam_alias_checker.Prelude.{
  ℕ, zero, suc, ◌+◌, ◌*◌, ◌%◌, Bool, true, false, not, Option, none, some, List, [], ◌∷◌, ltb, ◌==◌,
  if◌then◌else◌,
}
use cam_alias_checker.Libcam.Machine.{word}

mutual
  pub data CompressionPattern : Type 0 where
    leaf : (sym : ℕ) → CompressionPattern
    parent : (sym : ℕ) → CompressionPatternChild → CompressionPattern

  -- The fields are `pattern` and `numRepetitions`.
  pub data CompressionPatternChild : Type 0 where
    child : PatternVector → ℕ → CompressionPatternChild

  pub data PatternVector : Type 0 where
    no_more : PatternVector
    more : CompressionPattern → PatternVector → PatternVector

abbrev pub sym_of : CompressionPattern → ℕ
sym_of (leaf s) = s
sym_of (parent s c) = s

abbrev pub has_child : CompressionPattern → Bool
has_child (leaf s) = false
has_child (parent s c) = true

abbrev pub vector_size : PatternVector → ℕ
vector_size no_more = 0
vector_size (more p ps) = suc (vector_size ps)

-- `operator==`: a pattern without a child compares its symbol, whatever the other one is.
unfoldable mutual
  pub eq_compression : CompressionPattern → CompressionPattern → Bool
  eq_compression (leaf s) q = s == sym_of q
  eq_compression (parent s c) (leaf t) = false
  eq_compression (parent s c) (parent t d) = eq_child c d

  pub eq_child : CompressionPatternChild → CompressionPatternChild → Bool
  eq_child (child ps n) (child qs m) =
      if vector_size ps == vector_size qs then if n == m then eq_vector ps qs else false else false

  -- the loop over the two vectors, which are equally long there
  pub eq_vector : PatternVector → PatternVector → Bool
  eq_vector no_more qs = true
  eq_vector (more p ps) no_more = false
  eq_vector (more p ps) (more q qs) = if eq_compression p q then eq_vector ps qs else false

-- the copy constructor, and the copies of a child and a vector
unfoldable mutual
  pub copied : CompressionPattern → CompressionPattern
  copied (leaf s) = leaf s
  copied (parent s c) = parent 0 (copied_child c)

  pub copied_child : CompressionPatternChild → CompressionPatternChild
  copied_child (child ps n) = child (copied_vector ps) n

  pub copied_vector : PatternVector → PatternVector
  copied_vector no_more = no_more
  copied_vector (more p ps) = more (copied p) (copied_vector ps)

-- `operator=`, for two patterns that are not one and the same
abbrev pub assign : CompressionPattern → (other : CompressionPattern) → CompressionPattern
assign p (leaf t) = leaf t
assign p (parent t d) = parent (sym_of p) (copied_child d)

unfoldable pub vector_push : PatternVector → CompressionPattern → PatternVector
vector_push no_more p = more p no_more
vector_push (more q qs) p = more q (vector_push qs p)

abbrev pub push_back : CompressionPatternChild → CompressionPattern → CompressionPatternChild
push_back (child ps n) p = child (vector_push ps (copied p)) n

abbrev pub set_child_repetitions : CompressionPatternChild → ℕ → CompressionPatternChild
set_child_repetitions (child ps n) m = child ps m

abbrev pub inc_child_repetitions : CompressionPatternChild → CompressionPatternChild
inc_child_repetitions (child ps n) = child ps ((n + 1) % word)

abbrev pub get_child_size : CompressionPatternChild → ℕ
get_child_size (child ps n) = vector_size ps

-- `uninit` is the number of repetitions of a new child.
abbrev pub add_to_pattern :
    (uninit : ℕ) → CompressionPattern → CompressionPattern → CompressionPattern
add_to_pattern uninit (leaf s) p = parent s (push_back (child no_more uninit) p)
add_to_pattern uninit (parent s c) p = parent s (push_back c p)

-- `assert(hasChild())`, and then a call of the child
abbrev pub with_child :
    (CompressionPatternChild → CompressionPatternChild)
    → CompressionPattern
    → Option CompressionPattern
with_child f (leaf s) = none
with_child f (parent s c) = some (parent s (f c))

abbrev pub set_num_repetitions : CompressionPattern → ℕ → Option CompressionPattern
set_num_repetitions p n = with_child (λ c. set_child_repetitions c n) p

abbrev pub inc_num_repetitions : CompressionPattern → Option CompressionPattern
inc_num_repetitions p = with_child inc_child_repetitions p

abbrev pub get_size : CompressionPattern → Option ℕ
get_size (leaf s) = none
get_size (parent s c) = some (get_child_size c)

abbrev pub set_symbol : CompressionPattern → ℕ → CompressionPattern
set_symbol (leaf s) t = leaf t
set_symbol (parent s c) t = parent t c

-- a `map` from symbols to numbers, in the order of the symbols
abbrev pub Counts : Type 0
Counts = List (ℕ × ℕ)

-- `counts[s] += n`
unfoldable pub add_count : (s n : ℕ) → Counts → Counts
add_count s n [] = (s, n % word) ∷ []
add_count s n (x ∷ xs) =
    let rest = add_count s n xs in
    if ltb s x.0
    then (s, n % word) ∷ x ∷ xs
    else if ltb x.0 s
    then x ∷ rest
    else (s, (x.1 + n) % word) ∷ xs

-- `counts[inner.first] += n * inner.second`, for each entry
unfoldable pub add_counts : (n : ℕ) → (inner : Counts) → Counts → Counts
unfolding add_count
add_counts n [] m = m
add_counts n (x ∷ xs) m = add_counts n xs (add_count x.0 (n * x.1 % word) m)

unfoldable mutual
  unfolding add_counts

  pub get_number_of_instances_map : CompressionPattern → Counts
  get_number_of_instances_map (leaf s) = (s, 1) ∷ []
  get_number_of_instances_map (parent s c) = child_instances c

  pub child_instances : CompressionPatternChild → Counts
  child_instances (child ps n) = vector_instances n ps []

  -- the loop over the patterns of a child that is repeated `n` times
  pub vector_instances : (n : ℕ) → PatternVector → Counts → Counts
  vector_instances n no_more m = m
  vector_instances n (more p ps) m =
      vector_instances n ps (add_counts n (get_number_of_instances_map p) m)
