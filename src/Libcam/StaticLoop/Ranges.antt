-- ===== src/Libcam/StaticLoop/Ranges.antt =====
-- `buildInstructionInstanceLut`: the entries of an instruction after the loop over the instructions of one range
-- of iterations.
use cam_alias_checker.Prelude.{
  ℕ, ◌+◌, ◌*◌, ◌/◌, ◌%◌, ◌<◌, ◌≡◌, refl, ap, sym, subst, ◌∙◌, true, false, Option, some, List, [],
  ◌∷◌, ◌++◌, append-nil, length, length-append, ◌==◌, if◌then◌else◌, arith, Bool-cases, inl, inr,
}
use cam_alias_checker.Libcam.Machine.{word, sub_word}
use cam_alias_checker.Libcam.CompressionPattern.{Counts}
use cam_alias_checker.Libcam.CompressionPattern.Ordered.{IsCounts, count_at}
use cam_alias_checker.Libcam.StaticLoop.{
  InstructionInstanceLutEntry, InstanceLut, iterations_in, add_entry, entries_at, alter_entries,
  add_range,
}
use cam_alias_checker.Libcam.StaticLoop.Laps.{laps, length-laps, laps-none}
use cam_alias_checker.Libcam.StaticLoop.Entries.{Tiles, add_first-Tiles, add_entry-Tiles}

-- Each symbol that the map has comes at least once.
abbrev pub ArePositive : Counts → Type 0
ArePositive [] = Unit
ArePositive (x ∷ xs) = (0 < x.1) × ArePositive xs

count_at-below : (s lo : ℕ) (m : Counts) → s < lo → IsCounts lo m → count_at s m ≡ 0
count_at-below s lo [] lt w = refl
count_at-below s lo (x ∷ xs) lt w =
    let ne : (s == x.0) ≡ false = ground (arith, lt, w.0) in
    rw ne (count_at-below s (x.0 + 1) xs (omega (arith, lt, w.0)) w.2)

-- A change of the entries of one instruction leaves those of the others.
alter_entries-entries_at :
    (s : ℕ) (f : List InstructionInstanceLutEntry → Option (List InstructionInstanceLutEntry))
    (m : InstanceLut) (es : List InstructionInstanceLutEntry)
    → f (entries_at s m) ≡ some es
    → (m' : InstanceLut) × (alter_entries s f m ≡ some m')
      × (entries_at s m' ≡ es)
      × ((t : ℕ) → (t == s) ≡ false → entries_at t m' ≡ entries_at t m)
unfolding alter_entries
alter_entries-entries_at s f [] es e =
    let same : (s == s) ≡ true = ground arith in
    ((s, es) ∷ [], rw e refl, rw same refl, λ t ne. rw ne refl)
alter_entries-entries_at s f (x ∷ xs) es e = elim (Bool-cases (s == x.0)) [
  | inl p ↦
      let is_x : s ≡ x.0 = ground (arith, p) in
      let here : f x.1 ≡ some es = rw p at e in
      (
        (x.0, es) ∷ xs,
        rw (p, here) refl,
        rw p refl,
        λ t ne. let other : (t == x.0) ≡ false = ground (arith, ne, is_x) in rw other refl,
      )
  | inr p ↦
      let there : f (entries_at s xs) ≡ some es = rw p at e in
      let (m', run, got, kept) = alter_entries-entries_at s f xs es there in
      (
        x ∷ m',
        rw (p, run) refl,
        rw p got,
        λ t ne. ap (λ z. if t == x.0 then x.1 else z) (kept t ne),
      )
]

-- Iterations with instances always come to the entries.
add_entry-some :
    (c n s : ℕ) (es : List InstructionInstanceLutEntry)
    → 0 < c
    → (es' : List InstructionInstanceLutEntry) × (add_entry c n s es ≡ some es')
unfolding add_entry
add_entry-some c n s [] pos = ((0, sub_word (c * n % word) 1, (s, c)) ∷ [], refl)
add_entry-some c n s (e ∷ []) pos =
    let last = (e.1 + c * n) % word in
    let apart = e ∷ ((e.1 + 1) % word, last, (s, c)) ∷ [] in
    let some_c : (c == 0) ≡ false = ground (arith, pos) in
    elim (Bool-cases (e.2.1 == c)) [
      | inl p ↦ elim (Bool-cases (s == (e.2.0 + iterations_in e.0 e.1 / e.2.1) % word)) [
        | inl q ↦ ((e.0, last, e.2) ∷ [], rw (p, some_c, q) refl)
        | inr q ↦ (apart, rw (p, some_c, q) refl)
      ]
      | inr p ↦ (apart, rw p refl)
    ]
add_entry-some c n s (e ∷ f ∷ es) pos =
    let (es', run) = add_entry-some c n s (f ∷ es) pos in (e ∷ es', rw run refl)

more-Tiles :
    (c n s : ℕ) (es : List InstructionInstanceLutEntry) (xs : List ℕ)
    → 0 < c
    → 0 < n
    → length xs + n * c < word
    → s + n < word
    → Tiles 0 es xs
    → (es' : List InstructionInstanceLutEntry) × (add_entry c n s es ≡ some es')
      × Tiles 0 es' (xs ++ laps s n c)
more-Tiles c n s [] xs pc pn total it t =
    let (es', run, t') = add_first-Tiles c n s pc pn (omega (arith, total)) it in
    (es', run, subst (λ z. Tiles 0 es' (z ++ laps s n c)) (sym t) t')
more-Tiles c n s (e ∷ es) xs pc pn total it t =
    add_entry-Tiles c n s 0 e es xs pc pn (omega (arith, total)) it t

nothing_added : (ys : List ℕ) (start n k : ℕ) → k ≡ 0 → ys ++ laps start n k ≡ ys
nothing_added ys start n k e =
    ap (λ z. ys ++ laps start n z) e ∙ ap (λ z. ys ++ z) (laps-none start n) ∙ append-nil ys

-- The loop over the instructions adds the instances of each of them.
pub add_range-Tiles :
    (n start lo s : ℕ) (c : Counts) (m : InstanceLut) (xs : List ℕ)
    → 0 < n
    → start + n < word
    → IsCounts lo c
    → ArePositive c
    → length xs + n * count_at s c < word
    → Tiles 0 (entries_at s m) xs
    → (m' : InstanceLut) × (add_range n start c m ≡ some m')
      × Tiles 0 (entries_at s m') (xs ++ laps start n (count_at s c))
unfolding add_range
add_range-Tiles n start lo s [] m xs pn it w pos total t =
    (m, refl, subst (Tiles 0 (entries_at s m)) (sym (nothing_added xs start n 0 refl)) t)
add_range-Tiles n start lo s (x ∷ c) m xs pn it w pos total t = elim (Bool-cases (s == x.0)) [
  | inl p ↦
      let is_x : s ≡ x.0 = ground (arith, p) in
      let counted : count_at s (x ∷ c) ≡ x.1 = rw p refl in
      let own : length xs + n * x.1 < word = subst (λ z. length xs + n * z < word) counted total in
      let ys = xs ++ laps start n x.1 in
      let (es, one, t') = more-Tiles x.1 n start (entries_at s m) xs pos.0 pn own it t in
      let (m', alter, got, kept) =
        alter_entries-entries_at x.0 (add_entry x.1 n start) m es
          (ap (λ z. add_entry x.1 n start (entries_at z m)) (sym is_x) ∙ one) in
      let had : Tiles 0 (entries_at s m') ys =
        subst (λ z. Tiles 0 z ys) (sym (ap (λ z. entries_at z m') is_x ∙ got)) t' in
      let gone = count_at-below s (x.0 + 1) c (omega (arith, is_x)) w.2 in
      let len = length-append xs (laps start n x.1) in
      let len' = length-laps start n x.1 in
      let zero_more : n * count_at s c ≡ n * 0 = ap (λ z. n * z) gone in
      let small : length ys + n * count_at s c < word = omega (arith, len, len', own, zero_more) in
      let (m'', run, t'') = add_range-Tiles n start (x.0 + 1) s c m' ys pn it w.2 pos.1 small had in
      let none_more = nothing_added ys start n (count_at s c) gone in
      let had' : Tiles 0 (entries_at s m'') ys = subst (Tiles 0 (entries_at s m'')) none_more t'' in
      (
        m'',
        rw (alter, run) refl,
        subst (λ z. Tiles 0 (entries_at s m'') (xs ++ laps start n z)) (sym counted) had',
      )
  | inr p ↦
      let (es, one) = add_entry-some x.1 n start (entries_at x.0 m) pos.0 in
      let (m', alter, got, kept) = alter_entries-entries_at x.0 (add_entry x.1 n start) m es one in
      let counted : count_at s (x ∷ c) ≡ count_at s c = rw p refl in
      let had = subst (λ z. Tiles 0 z xs) (sym (kept s p)) t in
      let (m'', run, t'') =
        add_range-Tiles n start (x.0 + 1) s c m' xs pn it w.2 pos.1
          (subst (λ z. length xs + n * z < word) counted total) had in
      (
        m'',
        rw (alter, run) refl,
        subst (λ z. Tiles 0 (entries_at s m'') (xs ++ laps start n z)) (sym counted) t'',
      )
]
