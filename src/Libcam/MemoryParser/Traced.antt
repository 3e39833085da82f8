-- ===== src/Libcam/MemoryParser/Traced.antt =====
-- A file and the entries that are still in memory stand for the accesses recorded so far.
use cam_alias_checker.Prelude.{
  ℕ, ◌+◌, ◌^◌, ◌≤◌, ◌<◌, ◌≡◌, refl, ap, sym, ◌∙◌, List, [], ◌∷◌, ◌++◌, append_assoc, append-nil,
  ◌==◌, arith, Bool-cases, inl, inr, length, length-append, subst, some,
}
use cam_alias_checker.Libcam.Machine.{word, Number, plus, print_unsigned}
use cam_alias_checker.Libcam.Accesses.{Access}
use cam_alias_checker.Libcam.MemoryTracer.{
  TracerMemSet, TracerStaticInstRec, record_memory_reference, dump_reads, dump_writes, dump_set,
  prediction,
}
use cam_alias_checker.Libcam.MemoryTracer.Record
use cam_alias_checker.Libcam.MemoryTracer.Record.{IsNumbered, record_memory_reference-accesses}
use cam_alias_checker.Libcam.MemSet.{Uninit}
use cam_alias_checker.Libcam.MemSet.Entry.{accesses}
use cam_alias_checker.Libcam.MemSet.Contiguous.{IsContiguous}
use cam_alias_checker.Libcam.MemoryParser.{MemoryTraceLex, new_lex}
use cam_alias_checker.Libcam.MemoryParser.Feed.{feed, feed-append}
use cam_alias_checker.Libcam.MemoryParser.Entered.{HasAdded}
use cam_alias_checker.Libcam.MemoryParser.Dump.{IsLow, read_block, write_block}

record_memory_reference-IsLow :
    (es : TracerMemSet) (addr len : ℕ)
    → IsLow es
    → addr < 2 ^ 63
    → IsLow (record_memory_reference es addr len)
unfolding record_memory_reference
record_memory_reference-IsLow [] addr len v lt = lt
record_memory_reference-IsLow (e ∷ []) addr len v lt = elim (Bool-cases (e.length == len)) [
  | inr a ↦ rw a v
  | inl a ↦ elim (Bool-cases (e.start == e.end)) [
    | inl b ↦ rw (a, b) v
    | inr b ↦ elim (Bool-cases (prediction e == addr)) [
      | inl c ↦ rw (a, b, c) v
      | inr c ↦ rw (a, b, c) v
    ]
  ]
]
record_memory_reference-IsLow (e ∷ f ∷ es) addr len v lt = elim (Bool-cases (e.length == len)) [
  | inr a ↦ rw a v
  | inl a ↦ elim (Bool-cases (e.start == e.end)) [
    | inl b ↦ rw (a, b) v
    | inr b ↦ elim (Bool-cases (prediction e == addr)) [
      | inl c ↦ rw (a, b, c) v
      | inr c ↦ rw (a, b, c) v
    ]
  ]
]

length-le : (es : TracerMemSet) (n : ℕ) → IsNumbered n es → length es ≤ n
length-le [] n v = omega (arith, v)
length-le (e ∷ es) n v = omega (arith, v.0, v.1, length-le es e.start v.5)

module _ (u : Uninit) (c : ℕ) where
  -- the scanner after a whole file
  abbrev pub scanned : List Number → MemoryTraceLex
  scanned file = feed u (new_lex c [] 0) file

  pub record IsTraced (file : List Number) (es : TracerMemSet) (past : List Access) : Type 0 where
    pub held : ℕ
    pub numbered : IsNumbered held es
    pub low : IsLow es
    pub idle : (scanned file).state ≡ 0
    pub trace : accesses (scanned file).memset ++ Record.accesses es ≡ past
    pub contiguous : IsContiguous 0 (scanned file).next_expected_instance (scanned file).memset
    pub count : (scanned file).next_expected_instance + held ≡ length past

  pub nothing-IsTraced : IsTraced [] [] []
  unfolding feed accesses Record.accesses
  nothing-IsTraced = record {
    held = 0;
    numbered = refl;
    low = tt;
    idle = refl;
    trace = refl;
    contiguous = refl;
    count = refl;
  }

  pub record_memory_reference-IsTraced :
      (file : List Number) (es : TracerMemSet) (past : List Access) (addr len : ℕ)
      → IsTraced file es past
      → addr < 2 ^ 63
      → len < word
      → length past < word
      → IsTraced file (record_memory_reference es addr len) (past ++ (addr, len) ∷ [])
  record_memory_reference-IsTraced file es past addr len v la ll lp =
      let (numbered, same) =
        record_memory_reference-accesses es v.held addr len v.numbered (omega (arith, v.count))
          (omega arith) ll in
      record {
        held = v.held + 1;
        numbered = numbered;
        low = record_memory_reference-IsLow es addr len v.low la;
        idle = v.idle;
        trace =
            ap (λ a. accesses (scanned file).memset ++ a) same
            ∙ sym (
                append_assoc (accesses (scanned file).memset) (Record.accesses es)
                  ((addr, len) ∷ []))
            ∙ ap (λ a. a ++ (addr, len) ∷ []) v.trace;
        contiguous = v.contiguous;
        count = omega (arith, v.count, length-append past ((addr, len) ∷ []));
      }

  -- what is written out moves from the memory to the file
  dumped-IsTraced :
      (file block : List Number) (es : TracerMemSet) (past : List Access)
      → (v : IsTraced file es past)
      → HasAdded v.held (Record.accesses es) (scanned file) (feed u (scanned file) block)
        × ((feed u (scanned file) block).state ≡ 0)
      → IsTraced (file ++ block) [] past
  unfolding Record.accesses
  dumped-IsTraced file block es past v h =
      let l = feed u (scanned file) block in
      let join : scanned (file ++ block) ≡ l = feed-append u (new_lex c [] 0) file block in
      record {
        held = 0;
        numbered = refl;
        low = tt;
        idle = ap (λ x. x.state) join ∙ h.1;
        trace =
            append-nil (accesses (scanned (file ++ block)).memset)
            ∙ ap (λ x. accesses x.memset) join
            ∙ h.0.added
            ∙ v.trace;
        contiguous =
            subst (λ x. IsContiguous 0 x.next_expected_instance x.memset) (sym join)
              (h.0.contiguous 0 v.contiguous);
        count = ap (λ x. x.next_expected_instance + 0) join ∙ omega (arith, h.0.next, v.count);
      }

  pub dump_reads-IsTraced :
      (file : List Number) (id : ℕ) (rec : TracerStaticInstRec) (past : List Access)
      → IsTraced file rec.read_set past
      → length past < word
      → IsTraced (file ++ dump_reads id (some rec)) [] past
  unfolding dump_reads
  dump_reads-IsTraced file id rec past v lt = go rec.read_set v
    where
      go :
          (es : TracerMemSet)
          → IsTraced file es past
          → IsTraced
              (file ++ dump_reads id (some (record { read_set = es; write_set = [] })))
              []
              past
      go [] v = subst (λ f. IsTraced f [] past) (sym (append-nil file)) v
      go (e ∷ es) v =
          dumped-IsTraced file ((print_unsigned id ∷ dump_set (e ∷ es)) ++ plus 0 ∷ []) (e ∷ es)
            past v
            (read_block u (scanned file) id e es v.held v.idle
              (omega (arith, length-le (e ∷ es) v.held v.numbered, v.count)) v.numbered v.low
              (omega (arith, v.count)))

  pub dump_writes-IsTraced :
      (file : List Number) (id : ℕ) (rec : TracerStaticInstRec) (past : List Access)
      → IsTraced file rec.write_set past
      → length past < word
      → IsTraced (file ++ dump_writes id (some rec)) [] past
  unfolding dump_writes
  dump_writes-IsTraced file id rec past v lt = go rec.write_set v
    where
      go :
          (es : TracerMemSet)
          → IsTraced file es past
          → IsTraced
              (file ++ dump_writes id (some (record { read_set = []; write_set = es })))
              []
              past
      go [] v = subst (λ f. IsTraced f [] past) (sym (append-nil file)) v
      go (e ∷ es) v =
          dumped-IsTraced file (print_unsigned id ∷ plus 0 ∷ dump_set (e ∷ es)) (e ∷ es) past v (
            write_block u (scanned file) id e es v.held v.idle
              (omega (arith, length-le (e ∷ es) v.held v.numbered, v.count)) v.numbered v.low
              (omega (arith, v.count)))
