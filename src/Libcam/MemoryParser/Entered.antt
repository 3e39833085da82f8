-- ===== src/Libcam/MemoryParser/Entered.antt =====
-- What one entry of a trace adds to the set of the scanner.
use cam_alias_checker.Prelude.{
  ℕ, ◌+◌, ◌-◌, ◌%◌, ◌<◌, ◌≡◌, refl, ap, sym, ◌∙◌, true, List, ◌++◌, append_assoc, append-nil, arith,
  Bool-cases, inl, inr, subst,
}
use cam_alias_checker.Libcam.Machine.{word, sub_word}
use cam_alias_checker.Libcam.Accesses.{Access, run}
use cam_alias_checker.Libcam.MemSet.{
  MemSetEntry, Uninit, entry, is_trivial_pattern, get_num_instances, split_trivial,
}
use cam_alias_checker.Libcam.MemSet.Entry.{entry_accesses, accesses, IsEntry, split_trivial-IsSplit}
use cam_alias_checker.Libcam.MemSet.Contiguous.{IsContiguous, IsContiguous-append, accesses-append}
use cam_alias_checker.Libcam.MemoryParser.{MemoryTraceLex, pushed}
use cam_alias_checker.Libcam.MemoryParser.Feed.{entered}

-- From `l` to `l'` the scanner has added `n` accesses.
pub record HasAdded (n : ℕ) (acc : List Access) (l l' : MemoryTraceLex) : Type 0 where
  pub added : accesses l'.memset ≡ accesses l.memset ++ acc
  pub contiguous :
      (a : ℕ)
      → IsContiguous a l.next_expected_instance l.memset
      → IsContiguous a l'.next_expected_instance l'.memset
  pub next : l'.next_expected_instance ≡ l.next_expected_instance + n
  pub required : l'.num_instances_required ≡ l.num_instances_required
  pub start : l'.start_instance ≡ l.start_instance

pub HasAdded-trans :
    (n m : ℕ) (acc more : List Access) (l l' l'' : MemoryTraceLex)
    → HasAdded n acc l l'
    → HasAdded m more l' l''
    → HasAdded (n + m) (acc ++ more) l l''
HasAdded-trans n m acc more l l' l'' v w = record {
  added = w.added ∙ ap (λ a. a ++ more) v.added ∙ append_assoc (accesses l.memset) acc more;
  contiguous = λ a c. w.contiguous a (v.contiguous a c);
  next = omega (arith, v.next, w.next);
  required = w.required ∙ v.required;
  start = w.start ∙ v.start;
}

two_instances : (e : MemSetEntry) → IsEntry e → is_trivial_pattern e ≡ true → e.start < e.end
unfolding is_trivial_pattern
two_instances e v t =
    let n : get_num_instances e ≡ 2 = ground (arith, t) in omega (arith, v.ordered, v.counted, n)

module _ (u : Uninit) where
  accesses-pushed : (e : MemSetEntry) → IsEntry e → accesses (pushed u e) ≡ entry_accesses e
  unfolding pushed accesses
  accesses-pushed e v = elim (Bool-cases (is_trivial_pattern e)) [
    | inr t ↦ rw t (append-nil (entry_accesses e))
    | inl t ↦
        let s = split_trivial-IsSplit u e v (two_instances e v t) in
        rw t (
          ap (λ a. entry_accesses (split_trivial u e).0 ++ a)
            (append-nil (entry_accesses (split_trivial u e).1))
          ∙ sym s.accesses)
  ]

  pushed-IsContiguous :
      (e : MemSetEntry) → IsEntry e → IsContiguous e.start (e.end + 1) (pushed u e)
  unfolding pushed
  pushed-IsContiguous e v = elim (Bool-cases (is_trivial_pattern e)) [
    | inr t ↦ rw t (refl, v, refl)
    | inl t ↦
        let s = split_trivial-IsSplit u e v (two_instances e v t) in
        rw t (
          s.left_start,
          s.left_valid,
          (omega (arith, s.new_start, s.left_end), s.new_valid, ap (λ k. k + 1) s.new_end),
        )
  ]

  pub entered-HasAdded :
      (l : MemoryTraceLex) (b s c n : ℕ)
      → 0 < n
      → l.next_expected_instance + n < word
      → b < word
      → HasAdded n (run n b s c) l (entered u l b s c n)
  unfolding entered entry_accesses
  entered-HasAdded l b s c n pos lt lb =
      let k = l.next_expected_instance in
      let next : (k + n) % word ≡ k + n = omega arith in
      let last : sub_word (k + n) 1 ≡ k + n - 1 = omega arith in
      let e = entry u b s c k (k + n - 1) in
      let v : IsEntry e = record { ordered = omega arith; counted = omega arith; base = lb } in
      let size : k + n - 1 + 1 - k ≡ n = omega arith in
      rw (next, last)
        record {
          added =
              accesses-append l.memset (pushed u e)
              ∙ ap (λ a. accesses l.memset ++ a) (accesses-pushed e v ∙ ap (λ z. run z b s c) size);
          contiguous = λ a w. IsContiguous-append a k (k + n) l.memset (pushed u e) w (
              subst (λ z. IsContiguous k z (pushed u e))
                (let z : k + n - 1 + 1 ≡ k + n = omega arith in z) (pushed-IsContiguous e v));
          next = refl;
          required = refl;
          start = refl;
        }
