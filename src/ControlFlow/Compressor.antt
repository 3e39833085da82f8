-- ===== src/ControlFlow/Compressor.antt =====
-- class ControlFlowCompressor of libcam/src/ControlFlowCompressor.{h,cpp}. The window is a list of
-- patterns, the youngest first, as `window[0]` is the front of the deque.
pub mod History
pub mod Merge
pub mod Match
pub mod Reduce
pub mod Lossless
use cam_alias_checker.Prelude.{
  ℕ, zero, suc, ◌+◌, ◌-◌, ◌*◌, ◌/◌, min, Bool, true, false, ◌&&◌, not, Option, none, some, List, [],
  ◌∷◌, ◌++◌, reverse, ltb, ◌==◌, if◌then◌else◌, ◌>>=◌, length, get_elem?, take, drop,
}
use cam_alias_checker.ControlFlow.Pattern.{
  Pattern, node, to_list, new_symbol, new_repetition, eq_pattern, inc_repetitions, get_pattern_size,
  matches_backwards, decompress,
}

abbrev pub Window : Type 0
Window = List Pattern

pub record Compressor : Type 0 where
  pub window : Window
  pub stored_patterns : List Pattern
  pub max_window_length : ℕ

-- the constructor with a window length
abbrev pub new : ℕ → Compressor
new n = record { window = []; stored_patterns = []; max_window_length = n }

-- the constructor without one
abbrev pub new_default : Compressor
new_default = new 100

-- `patternMatchesSymbols`
unfoldable pub pattern_matches_symbols : Pattern → Window → Bool
unfolding matches_backwards
pattern_matches_symbols (node ps n s) symbols = matches_backwards (reverse (to_list ps)) symbols

unfoldable pub inc_front : Window → Window
unfolding inc_repetitions
inc_front [] = []
inc_front (p ∷ w) = inc_repetitions p ∷ w

-- the test of `match` at one pattern index
unfoldable pub matches_at : ℕ → Window → Bool
unfolding pattern_matches_symbols
matches_at i w = elim (get_elem? w i) [
  | none ↦ false
  | some p ↦ (i == get_pattern_size p) && pattern_matches_symbols p w
]

-- The loop of `match`, from an index down to 1; `none` where it returns false.
unfoldable pub match_from : ℕ → Window → Option Window
unfolding matches_at inc_front
match_from zero w = none
match_from (suc i) w =
    if matches_at (suc i) w then some (inc_front (drop (suc i) w)) else match_from i w

unfoldable pub match : ℕ → Window → Option Window
unfolding match_from
match max [] = none
match max (p ∷ w) = match_from (min (max / 2 + 1) (length (p ∷ w) - 1)) (p ∷ w)

-- the loop of `isRepeatedSequence`, over `window[index]` and `window[index + width]`
unfoldable pub same_sequence : ℕ → Window → Window → Bool
same_sequence zero a b = true
same_sequence (suc n) [] b = false
same_sequence (suc n) (p ∷ a) [] = false
same_sequence (suc n) (p ∷ a) (q ∷ b) = if eq_pattern p q then same_sequence n a b else false

unfoldable pub is_repeated_sequence : ℕ → Window → Bool
unfolding same_sequence
is_repeated_sequence width w = same_sequence width w (drop width w)

-- The loop of `merge`, from a width down to 1; `none` where it returns false.
unfoldable pub merge_from : (uninit : ℕ) → ℕ → Window → Option Window
unfolding is_repeated_sequence
merge_from uninit zero w = none
merge_from uninit (suc k) w =
    if is_repeated_sequence (suc k) w
    then some (new_repetition uninit (reverse (take (suc k) w)) 2 ∷ drop (suc k * 2) w)
    else merge_from uninit k w

unfoldable pub merge : (uninit : ℕ) → Window → Option Window
unfolding merge_from
merge uninit w = merge_from uninit (length w / 2) w

-- `match() || merge()`
unfoldable pub compress : (uninit max : ℕ) → Window → Option Window
unfolding match merge
compress uninit max w = elim (match max w) [ some w' ↦ some w' | none ↦ merge uninit w ]

-- `while( match() || merge() );`, on fuel
unfoldable pub compress_all : ℕ → (uninit max : ℕ) → Window → Window
unfolding compress
compress_all zero uninit max w = w
compress_all (suc fuel) uninit max w = elim (compress uninit max w) [
  | none ↦ w
  | some w' ↦ compress_all fuel uninit max w'
]

-- `back()` and `pop_back()` of the deque; both are undefined when it is empty
unfoldable pub back : Window → List Pattern
back [] = []
back (p ∷ []) = p ∷ []
back (p ∷ q ∷ w) = back (q ∷ w)

unfoldable pub pop_back : Window → Window
pop_back [] = []
pop_back (p ∷ []) = []
pop_back (p ∷ q ∷ w) = p ∷ pop_back (q ∷ w)

-- The last step of `insertSymbol`: the oldest entry of a window that overflows is stored.
unfoldable pub evict : Compressor → Compressor
unfolding back pop_back
evict c =
    if ltb c.max_window_length (length c.window)
    then record c {
      window = pop_back c.window;
      stored_patterns = c.stored_patterns ++ back c.window;
    }
    else c

-- As many rounds as the window has patterns are enough.
unfoldable pub insert_symbol : (uninit : ℕ) → Compressor → ℕ → Compressor
unfolding compress_all evict
insert_symbol uninit c s =
    let w = new_symbol uninit s ∷ c.window in
    evict (record c { window = compress_all (length w) uninit c.max_window_length w })

-- the calls of `insertSymbol` for a trace
unfoldable pub insert_symbols : (uninit : ℕ) → Compressor → List ℕ → Compressor
unfolding insert_symbol
insert_symbols uninit c [] = c
insert_symbols uninit c (s ∷ trace) = insert_symbols uninit (insert_symbol uninit c s) trace

unfoldable pub decompress_stored : List Pattern → Option (List ℕ)
decompress_stored [] = some []
decompress_stored (p ∷ ps) = do xs ← decompress p; ys ← decompress_stored ps; some (xs ++ ys)

-- from `window.end()` back to `window.begin()`
unfoldable pub decompress_window : Window → Option (List ℕ)
decompress_window [] = some []
decompress_window (p ∷ w) = do xs ← decompress_window w; ys ← decompress p; some (xs ++ ys)

unfoldable pub decompress_compressor : Compressor → Option (List ℕ)
unfolding decompress_stored decompress_window
decompress_compressor c = do
  xs ← decompress_stored c.stored_patterns
  ys ← decompress_window c.window
  some (xs ++ ys)

unfoldable pub clear : Compressor → Compressor
clear c = record c { window = []; stored_patterns = [] }

unfoldable pub is_empty : Compressor → Bool
is_empty c = length c.stored_patterns == 0 && length c.window == 0
