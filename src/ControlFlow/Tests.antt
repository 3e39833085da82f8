-- ===== src/ControlFlow/Tests.antt =====
-- Runs of the compressor on small traces, and the theorems at such inputs.
use cam_alias_checker.Prelude.{ℕ, ◌≡◌, refl, some, List, [], ◌∷◌, arith}
use cam_alias_checker.ControlFlow.Pattern.{Pattern, node, nil, cons, new_symbol, eq_pattern}
use cam_alias_checker.ControlFlow.Pattern.Expand.{expand, IsRepeated}
use cam_alias_checker.ControlFlow.Compressor.{
  Window, Compressor, new, new_default, compress_all, insert_symbol, insert_symbols,
  decompress_compressor,
}
use cam_alias_checker.ControlFlow.Compressor.Reduce.{Reduced, compress_all-Reduced}
use cam_alias_checker.ControlFlow.Compressor.Lossless.{
  contents, IsValid, insert_symbol-contents, decompress-contents, decompress-insert_symbols,
}

-- abccabccabcc, the example of ControlFlowCompressor.h
abbrev trace : List ℕ
trace = 1 ∷ 2 ∷ 3 ∷ 3 ∷ 1 ∷ 2 ∷ 3 ∷ 3 ∷ 1 ∷ 2 ∷ 3 ∷ 3 ∷ []

abbrev symbol : ℕ → Pattern
symbol s = new_symbol 0 s

-- ((a)(b)((c),2),3)
abbrev compressed : Pattern
compressed =
    node (cons (symbol 1) (cons (symbol 2) (cons (node (cons (symbol 3) nil) 2 0) nil))) 3 0

compressed_window : (insert_symbols 0 new_default trace).window ≡ compressed ∷ []
unfolding insert_symbols eq_pattern
compressed_window = refl

-- A window of two patterns lets the oldest one go.
small_window : (insert_symbols 0 (new 2) (1 ∷ 2 ∷ 3 ∷ [])).stored_patterns ≡ symbol 1 ∷ []
unfolding insert_symbols eq_pattern
small_window = refl

abbrev one_symbol : Compressor
one_symbol = record { window = symbol 5 ∷ []; stored_patterns = []; max_window_length = 2 }

symbol-IsRepeated : (s : ℕ) → IsRepeated (symbol s)
unfolding IsRepeated
symbol-IsRepeated s = (λ h. absurd (omega arith), tt)

one_symbol-IsValid : IsValid one_symbol
one_symbol-IsValid = record {
  stored_repeated = tt;
  window_repeated = (symbol-IsRepeated 5, tt);
  bounded = omega arith;
}

compressed-IsRepeated : IsRepeated compressed
unfolding IsRepeated
compressed-IsRepeated = omega arith

decompress-insert_symbols_example :
    decompress_compressor (insert_symbols 0 (new 2) trace) ≡ some trace
decompress-insert_symbols_example = decompress-insert_symbols 0 2 trace (omega arith)

insert_symbol-contents_example :
    IsValid (insert_symbol 0 one_symbol 5)
    × (contents (insert_symbol 0 one_symbol 5) ≡ 5 ∷ 5 ∷ [])
    × ((insert_symbol 0 one_symbol 5).max_window_length ≡ 2)
unfolding expand
insert_symbol-contents_example =
    insert_symbol-contents 0 one_symbol 5 one_symbol-IsValid (omega arith)

decompress-contents_example : decompress_compressor one_symbol ≡ some (5 ∷ [])
unfolding expand
decompress-contents_example = decompress-contents one_symbol one_symbol-IsValid (omega arith)

abbrev repeated_window : Window
repeated_window = symbol 4 ∷ symbol 4 ∷ symbol 4 ∷ []

compress_all-Reduced_example : Reduced 0 100 repeated_window (compress_all 3 0 100 repeated_window)
unfolding expand
compress_all-Reduced_example =
    compress_all-Reduced 0 100 3 repeated_window (omega arith)
      (symbol-IsRepeated 4, (symbol-IsRepeated 4, (symbol-IsRepeated 4, tt))) (omega arith)
