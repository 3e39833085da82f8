-- ===== src/ControlFlow/Pattern.antt =====
-- class TracerCompressionPattern of libcam/src/ControlFlowCompressor.{h,cpp}: a symbol, or a
-- sequence of patterns with a number of repetitions. A pattern owns the patterns in its vector, so
-- they are values here, and the calls of the allocator leave no trace.
pub mod Expand
pub mod Equal
use cam_alias_checker.Prelude.{
  ℕ, zero, suc, ◌+◌, ◌%◌, ◌^◌, Bool, true, false, ◌&&◌, not, Option, none, some, List, [], ◌∷◌,
  ◌++◌, ltb, ◌==◌, if◌then◌else◌, ◌>>=◌,
}

mutual
  -- The fields are `pattern`, `numRepetitions` and `sym`. A constructor of the class leaves some of
  -- them uninitialised: it is given a number that stands for what the memory holds.
  pub data Pattern : Type 0 where
    node : Patterns → ℕ → ℕ → Pattern

  -- `vector<TracerCompressionPattern*>`
  pub data Patterns : Type 0 where
    nil : Patterns
    cons : Pattern → Patterns → Patterns

abbrev pub size : Patterns → ℕ
size nil = 0
size (cons p ps) = suc (size ps)

-- `size() > 0`
abbrev pub non_empty : Patterns → Bool
non_empty nil = false
non_empty (cons p ps) = true

abbrev pub to_list : Patterns → List Pattern
to_list nil = []
to_list (cons p ps) = p ∷ to_list ps

abbrev pub from_list : List Pattern → Patterns
from_list [] = nil
from_list (p ∷ ps) = cons p (from_list ps)

-- the constructor for a symbol
abbrev pub new_symbol : (uninit : ℕ) → ℕ → Pattern
new_symbol uninit s = node nil uninit s

-- the constructor that takes over a vector
abbrev pub new_repetition : (uninit : ℕ) → List Pattern → ℕ → Pattern
new_repetition uninit ps n = node (from_list ps) n uninit

-- `operator==`
unfoldable mutual
  pub eq_pattern : Pattern → Pattern → Bool
  eq_pattern (node ps n s) (node qs m t) =
      if size ps == size qs
      then if not (non_empty ps) && not (non_empty qs)
        then s == t
        else if n == m
        then eq_patterns ps qs
        else false
      else false

  -- the loop over the two vectors, which are equally long there
  pub eq_patterns : Patterns → Patterns → Bool
  eq_patterns nil qs = true
  eq_patterns (cons p ps) nil = false
  eq_patterns (cons p ps) (cons q qs) = if eq_pattern p q then eq_patterns ps qs else false

-- `numRepetitions++`, on a `uint64_t`
unfoldable pub inc_repetitions : Pattern → Pattern
inc_repetitions (node ps n s) = node ps ((n + 1) % 2 ^ 64) s

abbrev pub get_pattern_size : Pattern → ℕ
get_pattern_size (node ps n s) = size ps

-- The patterns from the last one back, against the symbols from the first one on. A read behind
-- the last symbol is undefined, and fails here; `match` of the compressor makes none.
unfoldable pub matches_backwards : List Pattern → List Pattern → Bool
matches_backwards [] symbols = true
matches_backwards (p ∷ ps) [] = false
matches_backwards (p ∷ ps) (s ∷ symbols) =
    if eq_pattern s p then matches_backwards ps symbols else false

-- `for (unsigned int i = 0; i < numRepetitions; i++)` over what one round appends
unfoldable pub rounds : ℕ → Option (List ℕ) → Option (List ℕ)
rounds zero round = some []
rounds (suc n) round = do xs ← round; ys ← rounds n round; some (xs ++ ys)

-- A 32-bit counter never reaches a number of repetitions from 2 ^ 32 on: `none`, no result.
unfoldable pub repeat_counted : ℕ → Option (List ℕ) → Option (List ℕ)
unfolding rounds
repeat_counted n round = if ltb n (2 ^ 32) then rounds n round else none

unfoldable mutual
  unfolding repeat_counted

  pub decompress : Pattern → Option (List ℕ)
  decompress (node ps n s) =
      if non_empty ps then repeat_counted n (decompress_all ps) else some (s ∷ [])

  pub decompress_all : Patterns → Option (List ℕ)
  decompress_all nil = some []
  decompress_all (cons p ps) = do xs ← decompress p; ys ← decompress_all ps; some (xs ++ ys)
