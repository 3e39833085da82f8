-- ===== src/Libcam/MemoryParser/Prefix.antt =====
-- The scanner adds to the set that it reads to, and does the same whatever the set has.
use cam_alias_checker.Prelude.{
  ℕ, ◌+◌, ◌%◌, ◌≡◌, refl, ap, sym, ◌∙◌, List, [], ◌∷◌, ◌++◌, append_assoc, append-nil, ◌==◌, ◌||◌,
  ltb, Bool-cases, inl, inr,
}
use cam_alias_checker.Libcam.Machine.{word, sub_word, Number, strtoull}
use cam_alias_checker.Libcam.MemSet.{Uninit, MemSet, entry}
use cam_alias_checker.Libcam.MemoryParser.{
  MemoryTraceLex, lex_number, read_mem_set_entry, read_num_reps, read_size, pushed,
}
use cam_alias_checker.Libcam.MemoryParser.Feed.{feed}

-- the scanner with `x` in front of its set, and other bounds
abbrev pub behind : (x : MemSet) (required start : ℕ) → MemoryTraceLex → MemoryTraceLex
behind x n s l = record l { memset = x ++ l.memset; num_instances_required = n; start_instance = s }

module _ (u : Uninit) (x : MemSet) (n s : ℕ) where
  read_num_reps-behind :
      (t : Number) (l : MemoryTraceLex)
      → read_num_reps u t (behind x n s l) ≡ behind x n s (read_num_reps u t l)
  unfolding read_num_reps
  read_num_reps-behind t l =
      let next = (l.next_expected_instance + strtoull t) % word in
      let e =
        entry u l.curr_base l.curr_stride l.curr_length l.next_expected_instance
          (sub_word next 1) in
      ap (λ m. record (behind x n s (read_num_reps u t l)) { memset = m })
        (append_assoc x l.memset (pushed u e))

  read_mem_set_entry-behind :
      (t : Number) (l : MemoryTraceLex)
      → read_mem_set_entry u t (behind x n s l) ≡ behind x n s (read_mem_set_entry u t l)
  unfolding read_mem_set_entry
  read_mem_set_entry-behind t l = elim (Bool-cases (l.group_state == 0)) [
    | inl a ↦ rw a refl
    | inr a ↦ elim (Bool-cases (l.group_state == 1)) [
      | inl b ↦ rw (a, b) refl
      | inr b ↦ elim (Bool-cases (l.group_state == 2)) [
        | inl c ↦ rw (a, b, c) refl
        | inr c ↦ elim (Bool-cases (l.group_state == 3)) [
          | inl d ↦ rw (a, b, c, d) (read_num_reps-behind t l)
          | inr d ↦ rw (a, b, c, d) refl
        ]
      ]
    ]
  ]

  read_size-behind :
      (t : Number) (full empty : ℕ) (l : MemoryTraceLex)
      → read_size t full empty (behind x n s l) ≡ behind x n s (read_size t full empty l)
  read_size-behind t full empty l = elim (Bool-cases (ltb 0 (strtoull t))) [
    | inl a ↦ rw a refl
    | inr a ↦ rw a refl
  ]

  lex_number-behind :
      (t : Number) (l : MemoryTraceLex)
      → (lex_number u t (behind x n s l)).0 ≡ behind x n s (lex_number u t l).0
  unfolding lex_number
  lex_number-behind t l = elim (Bool-cases (l.state == 0)) [
    | inl a ↦ rw a refl
    | inr a ↦ elim (Bool-cases (l.state == 1)) [
      | inl b ↦ rw (a, b) (read_size-behind t 2 3 l)
      | inr b ↦ elim (Bool-cases (l.state == 3)) [
        | inl c ↦ rw (a, b, c) (read_size-behind t 4 0 l)
        | inr c ↦ elim (Bool-cases (l.state == 2 || l.state == 4)) [
          | inl d ↦ rw (a, b, c, d) (read_mem_set_entry-behind t l)
          | inr d ↦ rw (a, b, c, d) refl
        ]
      ]
    ]
  ]

  feed-behind :
      (ts : List Number) (l : MemoryTraceLex)
      → feed u (behind x n s l) ts ≡ behind x n s (feed u l ts)
  unfolding feed
  feed-behind [] l = refl
  feed-behind (t ∷ ts) l =
      ap (λ m. feed u m ts) (lex_number-behind t l) ∙ feed-behind ts (lex_number u t l).0

-- What is in the set already stays in front of what is read, and what is read does not depend on it
-- or on the bounds.
pub memset-feed :
    (u : Uninit) (ts : List Number) (x : MemSet) (n s : ℕ) (l : MemoryTraceLex)
    → (feed u (record l { memset = x; num_instances_required = n; start_instance = s }) ts).memset
      ≡ x ++ (feed u (record l { memset = [] }) ts).memset
memset-feed u ts x n s l =
    ap
      (λ m.
        (feed u (record l { memset = m; num_instances_required = n; start_instance = s })
          ts).memset)
      (sym (append-nil x))
    ∙ ap (λ m. m.memset) (feed-behind u x n s ts (record l { memset = [] }))
