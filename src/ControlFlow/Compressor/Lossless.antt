-- ===== src/ControlFlow/Compressor/Lossless.antt =====
-- `insertSymbol` and `decompress` of the ControlFlowCompressor: the compression is lossless, and
-- the window stays within its bound.
use cam_alias_checker.Prelude.{
  ℕ, ◌+◌, ◌-◌, ◌^◌, ◌<◌, ◌≤◌, ◌≡◌, refl, sym, ap, some, List, [], ◌∷◌, ◌++◌, arith, length,
  length-append, append_assoc, append-nil, inl, inr, Bool-cases, ltb, ◌∙◌,
}
use cam_alias_checker.ControlFlow.Pattern.{Pattern, new_symbol}
use cam_alias_checker.ControlFlow.Pattern.Expand.{expand, IsRepeated, decompress-expand}
use cam_alias_checker.ControlFlow.Compressor.{
  Window, Compressor, new, compress_all, back, pop_back, evict, insert_symbol, insert_symbols,
  decompress_stored, decompress_window, decompress_compressor,
}
use cam_alias_checker.ControlFlow.Compressor.History.{
  history, WindowRepeated, WindowRepeated-append,
}
use cam_alias_checker.ControlFlow.Compressor.Reduce.{compress_all-Reduced}

-- the symbols of the stored patterns, the oldest first
abbrev pub stored_history : List Pattern → List ℕ
stored_history [] = []
stored_history (p ∷ ps) = expand p ++ stored_history ps

-- the trace that a compressor stands for
abbrev pub contents : Compressor → List ℕ
contents c = stored_history c.stored_patterns ++ history c.window

pub record IsValid (c : Compressor) : Type 0 where
  pub stored_repeated : WindowRepeated c.stored_patterns
  pub window_repeated : WindowRepeated c.window
  pub bounded : length c.window ≤ c.max_window_length

stored_history-append :
    (ps qs : List Pattern) → stored_history (ps ++ qs) ≡ stored_history ps ++ stored_history qs
stored_history-append [] qs = refl
stored_history-append (p ∷ ps) qs =
    rw (stored_history-append ps qs)
      (sym (append_assoc (expand p) (stored_history ps) (stored_history qs)))

history-pop_back : (w : Window) → stored_history (back w) ++ history (pop_back w) ≡ history w
unfolding back pop_back
history-pop_back [] = refl
history-pop_back (p ∷ []) = rw (append-nil, append-nil)
history-pop_back (p ∷ q ∷ w) =
    sym (append_assoc (stored_history (back (q ∷ w))) (history (pop_back (q ∷ w))) (expand p))
    ∙ ap (λ h. h ++ expand p) (history-pop_back (q ∷ w))

length-pop_back : (w : Window) → length (pop_back w) ≡ length w - 1
unfolding pop_back
length-pop_back [] = refl
length-pop_back (p ∷ []) = refl
length-pop_back (p ∷ q ∷ w) = omega (arith, length-pop_back (q ∷ w))

WindowRepeated-pop_back :
    (w : Window) → WindowRepeated w → WindowRepeated (pop_back w) × WindowRepeated (back w)
unfolding back pop_back
WindowRepeated-pop_back [] r = (tt, tt)
WindowRepeated-pop_back (p ∷ []) r = (tt, r)
WindowRepeated-pop_back (p ∷ q ∷ w) r =
    let ih = WindowRepeated-pop_back (q ∷ w) r.1 in ((r.0, ih.0), ih.1)

evict_keeps :
    (c : Compressor)
    → WindowRepeated c.stored_patterns
    → WindowRepeated c.window
    → length c.window ≤ c.max_window_length + 1
    → IsValid (evict c) × (contents (evict c) ≡ contents c)
unfolding evict
evict_keeps c s r le = elim (Bool-cases (ltb c.max_window_length (length c.window))) [
  | inl e ↦
      let k = WindowRepeated-pop_back c.window r in
      rw e (
        record {
          stored_repeated = WindowRepeated-append c.stored_patterns (back c.window) s k.1;
          window_repeated = k.0;
          bounded = omega (arith, length-pop_back c.window);
        },
        rw (stored_history-append, append_assoc, history-pop_back c.window),
      )
  | inr e ↦ rw e (record { stored_repeated = s; window_repeated = r; bounded = ground arith }, refl)
]

evict-max : (c : Compressor) → (evict c).max_window_length ≡ c.max_window_length
unfolding evict
evict-max c = ground arith

expand-new_symbol : (uninit s : ℕ) → expand (new_symbol uninit s) ≡ s ∷ []
unfolding expand
expand-new_symbol uninit s = refl

IsRepeated-new_symbol : (uninit s : ℕ) → IsRepeated (new_symbol uninit s)
unfolding IsRepeated
IsRepeated-new_symbol uninit s = (λ h. absurd (omega arith), tt)

-- One symbol is added to what the compressor stands for, and nothing else changes.
pub insert_symbol-contents :
    (uninit : ℕ) (c : Compressor) (s : ℕ)
    → IsValid c
    → length (contents c) + 1 < 2 ^ 64
    → IsValid (insert_symbol uninit c s)
      × (contents (insert_symbol uninit c s) ≡ contents c ++ (s ∷ []))
      × ((insert_symbol uninit c s).max_window_length ≡ c.max_window_length)
unfolding insert_symbol
insert_symbol-contents uninit c s v lt =
    let w = new_symbol uninit s ∷ c.window in
    let whole = length-append (stored_history c.stored_patterns) (history c.window) in
    let grown = length-append (history c.window) (s ∷ []) in
    let red =
      compress_all-Reduced uninit c.max_window_length (length w) w (omega arith)
        (IsRepeated-new_symbol uninit s, v.window_repeated)
        (rw (expand-new_symbol uninit s) (omega arith)) in
    let c' = record c { window = compress_all (length w) uninit c.max_window_length w } in
    let kept = evict_keeps c' v.stored_repeated red.repeated (omega (arith, red.no_longer)) in
    (
      kept.0,
      kept.1
          ∙ ap (λ h. stored_history c.stored_patterns ++ h) red.keeps
          ∙ (rw (expand-new_symbol uninit s, append_assoc)),
      evict-max c',
    )

insert_symbols-contents :
    (uninit : ℕ) (c : Compressor) (trace : List ℕ)
    → IsValid c
    → length (contents c) + length trace < 2 ^ 64
    → IsValid (insert_symbols uninit c trace)
      × (contents (insert_symbols uninit c trace) ≡ contents c ++ trace)
unfolding insert_symbols
insert_symbols-contents uninit c [] v lt = (v, sym (append-nil (contents c)))
insert_symbols-contents uninit c (s ∷ trace) v lt =
    let k = insert_symbol-contents uninit c s v (omega arith) in
    let grown = length-append (contents c) (s ∷ []) in
    let ih =
      insert_symbols-contents uninit (insert_symbol uninit c s) trace k.0
        (omega (arith, ap length k.1)) in
    (ih.0, ih.1 ∙ (rw (k.1, append_assoc)))

decompress_stored_lem :
    (ps : List Pattern)
    → WindowRepeated ps
    → length (stored_history ps) < 2 ^ 32
    → decompress_stored ps ≡ some (stored_history ps)
unfolding decompress_stored
decompress_stored_lem [] r lt = refl
decompress_stored_lem (p ∷ ps) r lt =
    let k = length-append (expand p) (stored_history ps) in
    rw (decompress-expand p r.0 (omega arith), decompress_stored_lem ps r.1 (omega arith))

decompress_window_lem :
    (w : Window)
    → WindowRepeated w
    → length (history w) < 2 ^ 32
    → decompress_window w ≡ some (history w)
unfolding decompress_window
decompress_window_lem [] r lt = refl
decompress_window_lem (p ∷ w) r lt =
    let k = length-append (history w) (expand p) in
    rw (decompress_window_lem w r.1 (omega arith), decompress-expand p r.0 (omega arith))

-- Below 2 ^ 32 symbols, `decompress` of a valid compressor ends with the trace that it stands for.
pub decompress-contents :
    (c : Compressor)
    → IsValid c
    → length (contents c) < 2 ^ 32
    → decompress_compressor c ≡ some (contents c)
unfolding decompress_compressor
decompress-contents c v lt =
    let k = length-append (stored_history c.stored_patterns) (history c.window) in
    rw (
      decompress_stored_lem c.stored_patterns v.stored_repeated (omega arith),
      decompress_window_lem c.window v.window_repeated (omega arith),
    )

-- For every window length and every trace of less than 2 ^ 32 symbols, inserting the symbols of the
-- trace into a new compressor and decompressing gives back the trace.
pub decompress-insert_symbols :
    (uninit max : ℕ) (trace : List ℕ)
    → length trace < 2 ^ 32
    → decompress_compressor (insert_symbols uninit (new max) trace) ≡ some trace
decompress-insert_symbols uninit max trace lt =
    let fresh : IsValid (new max) = record {
      stored_repeated = tt;
      window_repeated = tt;
      bounded = omega arith;
    } in
    let k = insert_symbols-contents uninit (new max) trace fresh (omega arith) in
    decompress-contents (insert_symbols uninit (new max) trace) k.0 (rw k.1 lt) ∙ ap some k.1
