-- ===== src/Libcam/MemoryParser/Feed.antt =====
-- The scanner on the numbers of one entry, and of one set of entries.
use cam_alias_checker.Prelude.{
  ℕ, ◌+◌, ◌%◌, ◌≡◌, refl, ap, ◌∙◌, true, List, [], ◌∷◌, ◌++◌, ◌==◌, if◌then◌else◌, ◌||◌, arith,
}
use cam_alias_checker.Libcam.Machine.{word, sub_word, Number, strtoll, strtoull}
use cam_alias_checker.Libcam.MemSet.{Uninit, entry}
use cam_alias_checker.Libcam.MemoryParser.{
  MemoryTraceLex, lex_number, read_mem_set_entry, absolute_base, pushed,
}

module _ (u : Uninit) where
  -- The scanner on numbers, whether or not it returns on the way.
  unfoldable pub feed : MemoryTraceLex → List Number → MemoryTraceLex
  feed l [] = l
  feed l (t ∷ ts) = feed (lex_number u t l).0 ts

  pub feed-append :
      (l : MemoryTraceLex) (ts us : List Number) → feed l (ts ++ us) ≡ feed (feed l ts) us
  unfolding feed
  feed-append l [] us = refl
  feed-append l (t ∷ ts) us = feed-append (lex_number u t l).0 ts us

  reading :
      (t : Number) (l : MemoryTraceLex)
      → (l.state == 2 || l.state == 4) ≡ true
      → (lex_number u t l).0 ≡ read_mem_set_entry u t l
  unfolding lex_number
  reading t l s = ground arith

  -- the scanner after the four numbers of an entry
  unfoldable pub entered : MemoryTraceLex → (base stride len reps : ℕ) → MemoryTraceLex
  entered l b s c n =
      let next = (l.next_expected_instance + n) % word in
      let left = sub_word l.remaining_groups 1 in
      record l {
        curr_base = b;
        last_access = b;
        curr_stride = s;
        curr_length = c;
        curr_num_reps = n;
        memset = l.memset ++ pushed u (entry u b s c l.next_expected_instance (sub_word next 1));
        next_expected_instance = next;
        remaining_groups = left;
        group_state = 0;
        state = if left == 0 then (l.state + 1) % 5 else l.state;
      }

  pub feed_entry :
      (l : MemoryTraceLex) (d s c n : Number)
      → (l.state == 2 || l.state == 4) ≡ true
      → l.group_state ≡ 0
      → feed l (d ∷ s ∷ c ∷ n ∷ [])
        ≡ entered l (absolute_base l.last_access (strtoll d)) (strtoll s) (strtoull c) (strtoull n)
  unfolding feed entered read_mem_set_entry
  feed_entry l d s c n r g =
      let b = absolute_base l.last_access (strtoll d) in
      let l1 = record l { curr_base = b; last_access = b; group_state = 1 } in
      let l2 = record l1 { curr_stride = strtoll s; group_state = 2 } in
      let l3 = record l2 { curr_length = strtoull c; group_state = 3 } in
      let e1 : read_mem_set_entry u d l ≡ l1 = ground (arith, g) in
      ap (λ x. (lex_number u n (lex_number u c (lex_number u s x).0).0).0) (reading d l r ∙ e1)
      ∙ ap (λ x. (lex_number u n (lex_number u c x).0).0) (reading s l1 r)
      ∙ ap (λ x. (lex_number u n x).0) (reading c l2 r)
      ∙ reading n l3 r
