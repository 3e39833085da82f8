-- ===== src/Libcam/MemoryParser/Dump.antt =====
-- The scanner reads back what the tracer writes.
use cam_alias_checker.Prelude.{
  ℕ, ◌+◌, ◌-◌, ◌%◌, ◌^◌, ◌≤◌, ◌<◌, ◌≡◌, refl, ap, sym, ◌∙◌, true, List, [], ◌∷◌, ◌++◌, ◌==◌,
  if◌then◌else◌, ◌||◌, arith, length, subst,
}
use cam_alias_checker.Libcam.Machine.{
  word, sub_word, strtoll, print_signed, print_unsigned, strtoll-print_signed,
  strtoull-print_unsigned, Number, plus,
}
use cam_alias_checker.Libcam.Accesses.{Access, run}
use cam_alias_checker.Libcam.MemoryTracer.{
  TracerMemSetEntry, TracerMemSet, get_num_instances, dump_entries, dump_entry, dump_set,
}
use cam_alias_checker.Libcam.MemoryTracer.Record
use cam_alias_checker.Libcam.MemoryTracer.Record.{IsNumbered}
use cam_alias_checker.Libcam.MemSet.{Uninit}
use cam_alias_checker.Libcam.MemoryParser.{MemoryTraceLex, absolute_base, lex_number}
use cam_alias_checker.Libcam.MemoryParser.Feed.{feed, feed-append, feed_entry, entered}
use cam_alias_checker.Libcam.MemoryParser.Entered.{HasAdded, HasAdded-trans, entered-HasAdded}

-- The oldest base is in the lower half of the addresses.
abbrev pub IsLow : TracerMemSet → Type 0
IsLow [] = Unit
IsLow (e ∷ []) = e.base < 2 ^ 63
IsLow (e ∷ f ∷ es) = IsLow (f ∷ es)

absolute_base-first : (b : ℕ) → b < 2 ^ 63 → absolute_base 0 (strtoll (print_unsigned b)) ≡ b
absolute_base-first b lt = ground arith

absolute_base-next : (a b : ℕ) → a < word → b < word → absolute_base a (sub_word b a) ≡ b
absolute_base-next a b la lb = ground arith

-- The scanner has read entries, and `left` more are to come.
record HasRead (u : Uninit) (n left base : ℕ) (acc : List Access) (l l' : MemoryTraceLex)
    : Type 0 where
  pub adds : HasAdded n acc l l'
  pub group : l'.group_state ≡ 0
  pub remaining : l'.remaining_groups ≡ left
  pub state : l'.state ≡ (if left == 0 then (l.state + 1) % 5 else l.state)
  pub last : l'.last_access ≡ base

still_reading : (a b left : ℕ) → (if left + 1 == 0 then a else b) ≡ b
still_reading a b left = ground arith

module _ (u : Uninit) where
  entered-HasRead :
      (l : MemoryTraceLex) (b s c n left : ℕ)
      → l.remaining_groups ≡ left + 1
      → left + 1 < word
      → 0 < n
      → l.next_expected_instance + n < word
      → b < word
      → HasRead u n left b (run n b s c) l (entered u l b s c n)
  unfolding entered
  entered-HasRead l b s c n left rem lw pos lt lb =
      let less : sub_word l.remaining_groups 1 ≡ left = omega (arith, rem) in
      record {
        adds = entered-HasAdded u l b s c n pos lt lb;
        group = refl;
        remaining = less;
        state = rw less;
        last = refl;
      }

  read_entry :
      (l : MemoryTraceLex) (e : TracerMemSetEntry) (d : Number) (n left : ℕ)
      → (l.state == 2 || l.state == 4) ≡ true
      → l.group_state ≡ 0
      → l.remaining_groups ≡ left + 1
      → left + 1 < word
      → absolute_base l.last_access (strtoll d) ≡ e.base
      → e.end + 1 ≡ n
      → n < word
      → e.start ≤ e.end
      → e.base < word
      → e.stride < word
      → e.length < word
      → l.next_expected_instance + (n - e.start) < word
      → HasRead u (n - e.start) left e.base (Record.entry_accesses e) l (
          feed u l (
            d
            ∷ print_signed e.stride
            ∷ print_unsigned e.length
            ∷ print_unsigned (get_num_instances e)
            ∷ []))
  unfolding Record.entry_accesses
  read_entry l e d n left r g rem lw b num ln le lb ls lc lt =
      let count : get_num_instances e ≡ n - e.start = omega (arith, num) in
      let size : e.end + 1 - e.start ≡ n - e.start = omega (arith, num) in
      rw
        (
          feed_entry u l d (print_signed e.stride) (print_unsigned e.length)
              (print_unsigned (get_num_instances e)) r g,
          b,
          strtoll-print_signed e.stride ls,
          strtoull-print_unsigned e.length lc,
          strtoull-print_unsigned (get_num_instances e) (omega arith),
          count,
          size,
        )
        (entered-HasRead l e.base e.stride e.length (n - e.start) left rem lw (omega (arith, num))
          lt lb)

  -- the numbers of a set's entries
  read_entries :
      (l : MemoryTraceLex) (e : TracerMemSetEntry) (es : TracerMemSet) (n left : ℕ)
      → (l.state == 2 || l.state == 4) ≡ true
      → l.group_state ≡ 0
      → l.remaining_groups ≡ length (e ∷ es) + left
      → length (e ∷ es) + left < word
      → l.last_access ≡ 0
      → IsNumbered n (e ∷ es)
      → IsLow (e ∷ es)
      → l.next_expected_instance + n < word
      → HasRead u n left e.base (Record.accesses (e ∷ es)) l (feed u l (dump_entries (e ∷ es)))
  unfolding dump_entries Record.accesses
  read_entries l e [] n left r g rem lw la v low lt =
      subst
        (λ k.
          HasRead u k left e.base (Record.entry_accesses e) l (feed u l (dump_entries (e ∷ []))))
        (let k : n - e.start ≡ n = omega (arith, v.5) in k)
        (read_entry l e (print_unsigned e.base) n left r g (omega (arith, rem)) (omega arith)
          (rw la (absolute_base-first e.base low)) v.0 (omega arith) v.1 v.2 v.3 v.4 (omega arith))
  read_entries l e (f ∷ es) n left r g rem lw la v low lt =
      let l' = feed u l (dump_entries (f ∷ es)) in
      let before =
        read_entries l f es e.start (left + 1) r g (omega (arith, rem)) (omega arith) la v.5 low
          (omega (arith, v.0, v.1)) in
      let same : l'.state ≡ l.state =
        before.state ∙ still_reading ((l.state + 1) % 5) l.state left in
      let at : absolute_base l'.last_access (strtoll (print_signed (sub_word e.base f.base)))
          ≡ e.base =
        rw (before.last, strtoll-print_signed (sub_word e.base f.base) (omega arith))
          (absolute_base-next f.base e.base (v.5).2 v.2) in
      let after =
        read_entry l' e (print_signed (sub_word e.base f.base)) n left (rw same r) before.group
          before.remaining (omega arith) at v.0 (omega arith) v.1 v.2 v.3 v.4
          (omega (arith, before.adds.next, v.0, v.1)) in
      let total : e.start + (n - e.start) ≡ n = omega (arith, v.0, v.1) in
      rw (feed-append u l (dump_entries (f ∷ es)) (dump_entry e f)) record {
        adds =
            subst (λ k. HasAdded k (Record.accesses (e ∷ f ∷ es)) l (feed u l' (dump_entry e f)))
              total
              (HasAdded-trans e.start (n - e.start) (Record.accesses (f ∷ es))
                (Record.entry_accesses e) l l' (feed u l' (dump_entry e f)) before.adds after.adds);
        group = after.group;
        remaining = after.remaining;
        state = after.state ∙ ap (λ k. if left == 0 then (k + 1) % 5 else k) same;
        last = after.last;
      }

  -- The scanner in front of the entries of a set, in state 2 for reads and 4 for writes.
  abbrev ready : MemoryTraceLex → (size state : ℕ) → MemoryTraceLex
  ready l k st = record l { last_access = 0; remaining_groups = k; group_state = 0; state = st }

  at_id :
      (l : MemoryTraceLex) (t : Number)
      → l.state ≡ 0
      → (lex_number u t l).0 ≡ record l { last_access = 0; state = 1 }
  unfolding lex_number
  at_id l t z = ground (arith, z)

  at_reads :
      (l : MemoryTraceLex) (k : ℕ)
      → 0 < k
      → k < word
      → (lex_number u (print_unsigned k) (record l { last_access = 0; state = 1 })).0 ≡ ready l k 2
  unfolding lex_number
  at_reads l k pos lt = ground (arith, strtoull-print_unsigned k lt)

  at_writes :
      (l : MemoryTraceLex) (k : ℕ)
      → 0 < k
      → k < word
      → (lex_number u
          (print_unsigned k)
          (lex_number u (plus 0) (record l { last_access = 0; state = 1 })).0).0
        ≡ ready l k 4
  unfolding lex_number
  at_writes l k pos lt = ground (arith, strtoull-print_unsigned k lt)

  no_writes :
      (l : MemoryTraceLex)
      → l.state ≡ 3
      → (lex_number u (plus 0) l).0 ≡ record l { remaining_groups = 0; state = 0 }
  unfolding lex_number
  no_writes l z = ground (arith, z)

  -- A set that is not empty, dumped as the reads of an instruction, takes the scanner from one
  -- instruction to the next.
  pub read_block :
      (l : MemoryTraceLex) (id : ℕ) (e : TracerMemSetEntry) (es : TracerMemSet) (n : ℕ)
      → l.state ≡ 0
      → length (e ∷ es) < word
      → IsNumbered n (e ∷ es)
      → IsLow (e ∷ es)
      → l.next_expected_instance + n < word
      → HasAdded n
          (Record.accesses (e ∷ es))
          l
          (feed u l ((print_unsigned id ∷ dump_set (e ∷ es)) ++ plus 0 ∷ []))
        × ((feed u l ((print_unsigned id ∷ dump_set (e ∷ es)) ++ plus 0 ∷ [])).state ≡ 0)
  unfolding dump_set feed
  read_block l id e es n z lw v low lt =
      let k = length (e ∷ es) in
      let h =
        read_entries (ready l k 2) e es n 0 refl refl (omega arith) (omega arith) refl v low lt in
      let ts = dump_entries (e ∷ es) ++ plus 0 ∷ [] in
      subst (λ x. HasAdded n (Record.accesses (e ∷ es)) l x × (x.state ≡ 0))
        (sym (
          ap (λ x. feed u (lex_number u (print_unsigned k) x).0 ts) (at_id l (print_unsigned id) z)
          ∙ ap (λ x. feed u x ts) (at_reads l k (omega arith) lw)
          ∙ feed-append u (ready l k 2) (dump_entries (e ∷ es)) (plus 0 ∷ [])
          ∙ no_writes (feed u (ready l k 2) (dump_entries (e ∷ es))) h.state))
        (
          record {
            added = h.adds.added;
            contiguous = h.adds.contiguous;
            next = h.adds.next;
            required = h.adds.required;
            start = h.adds.start;
          },
          refl,
        )

  -- So does a set dumped as the writes of an instruction.
  pub write_block :
      (l : MemoryTraceLex) (id : ℕ) (e : TracerMemSetEntry) (es : TracerMemSet) (n : ℕ)
      → l.state ≡ 0
      → length (e ∷ es) < word
      → IsNumbered n (e ∷ es)
      → IsLow (e ∷ es)
      → l.next_expected_instance + n < word
      → HasAdded n
          (Record.accesses (e ∷ es))
          l
          (feed u l (print_unsigned id ∷ plus 0 ∷ dump_set (e ∷ es)))
        × ((feed u l (print_unsigned id ∷ plus 0 ∷ dump_set (e ∷ es))).state ≡ 0)
  unfolding dump_set feed
  write_block l id e es n z lw v low lt =
      let k = length (e ∷ es) in
      let h =
        read_entries (ready l k 4) e es n 0 refl refl (omega arith) (omega arith) refl v low lt in
      let ts = dump_entries (e ∷ es) in
      subst (λ x. HasAdded n (Record.accesses (e ∷ es)) l x × (x.state ≡ 0))
        (sym (
          ap (λ x. feed u (lex_number u (print_unsigned k) (lex_number u (plus 0) x).0).0 ts)
            (at_id l (print_unsigned id) z)
          ∙ ap (λ x. feed u x ts) (at_writes l k (omega arith) lw)))
        (
          record {
            added = h.adds.added;
            contiguous = h.adds.contiguous;
            next = h.adds.next;
            required = h.adds.required;
            start = h.adds.start;
          },
          h.state,
        )
