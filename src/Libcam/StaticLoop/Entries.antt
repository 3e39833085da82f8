-- ===== src/Libcam/StaticLoop/Entries.antt =====
-- The entries of an instruction against the iterations of its instances, in order.
use cam_alias_checker.Prelude.{
  ℕ, ◌+◌, ◌-◌, ◌*◌, ◌/◌, ◌%◌, ◌<◌, ◌≡◌, refl, ap, sym, ◌∙◌, false, some, List, [], ◌∷◌, ◌++◌,
  append_assoc, append-nil, length, length-append, ◌==◌, arith, Bool-cases, inl, inr,
}
use native.Mathlib.Nat.{mul-pos, mul-div_left, mod-eq_of_lt}
use cam_alias_checker.Libcam.Machine.{word, sub_word}
use cam_alias_checker.Libcam.StaticLoop.{InstructionInstanceLutEntry, add_entry, iterations_in}
use cam_alias_checker.Libcam.StaticLoop.Laps.{laps, length-laps, laps-add}

-- The entry has the `n` iterations `laps`, and its instances count from `lo`.
pub record IsLap (lo n : ℕ) (e : InstructionInstanceLutEntry) : Type 0 where
  pub starts : e.0 ≡ lo
  pub some_instances : 0 < e.2.1
  pub some_iterations : 0 < n
  pub ends : e.1 + 1 ≡ lo + n * e.2.1
  pub last_is_word : e.1 < word
  pub iterations_are_words : e.2.0 + n < word

-- The entries have the instances from `lo` on, without a gap, whose iterations are `xs`.
abbrev pub Tiles : ℕ → List InstructionInstanceLutEntry → List ℕ → Type 0
Tiles lo [] xs = xs ≡ []
Tiles lo (e ∷ es) xs =
    (n : ℕ) × (ys : List ℕ) × IsLap lo n e × (xs ≡ laps e.2.0 n e.2.1 ++ ys) × Tiles (e.1 + 1) es ys

pub pos_product : (lo n : ℕ) (e : InstructionInstanceLutEntry) → IsLap lo n e → 0 < n * e.2.1
pos_product lo n e l = mul-pos l.some_iterations l.some_instances

-- `n` iterations with `c` instances in each are one entry.
new-IsLap :
    (lo n c s : ℕ)
    → 0 < c
    → 0 < n
    → lo + n * c < word
    → s + n < word
    → IsLap lo n (lo, lo + n * c - 1, (s, c))
new-IsLap lo n c s pc pn total it =
    let pos = mul-pos pn pc in
    record {
      starts = refl;
      some_instances = pc;
      some_iterations = pn;
      ends = omega (arith, pos);
      last_is_word = omega (arith, total);
      iterations_are_words = it;
    }

pub add_first-Tiles :
    (c n s : ℕ)
    → 0 < c
    → 0 < n
    → n * c < word
    → s + n < word
    → (es : List InstructionInstanceLutEntry) × (add_entry c n s [] ≡ some es)
      × Tiles 0 es (laps s n c)
unfolding add_entry
add_first-Tiles c n s pc pn total it =
    let pos = mul-pos pn pc in
    let last : sub_word (c * n % word) 1 ≡ 0 + n * c - 1 = ground (arith, pos, total) in
    (
      (0, 0 + n * c - 1, (s, c)) ∷ [],
      rw last refl,
      (
        n,
        [],
        new-IsLap 0 n c s pc pn (omega (arith, total)) it,
        sym (append-nil (laps s n c)),
        refl,
      ),
    )

-- The test whether iterations go on where an entry ends.
goes_on_lem :
    (lo n s : ℕ) (e : InstructionInstanceLutEntry)
    → IsLap lo n e
    → n * e.2.1 < word
    → (e.2.0 + iterations_in e.0 e.1 / e.2.1) % word ≡ e.2.0 + n
goes_on_lem lo n s e l small =
    let pos = pos_product lo n e l in
    let starts = l.starts in
    let ends = l.ends in
    let last = l.last_is_word in
    let it = l.iterations_are_words in
    let count : iterations_in e.0 e.1 ≡ n * e.2.1 =
      ground (arith, starts, ends, last, small, pos) in
    ap (λ z. (e.2.0 + z / e.2.1) % word) count
    ∙ ap (λ z. (e.2.0 + z) % word) (mul-div_left n l.some_instances)
    ∙ mod-eq_of_lt it

-- one entry and what stands for the same iterations
abbrev IsWhole : ℕ → ℕ → InstructionInstanceLutEntry → List ℕ → Type 0
IsWhole lo m e xs = IsLap lo m e × (xs ≡ laps e.2.0 m e.2.1)

length-IsWhole :
    (lo m : ℕ) (e : InstructionInstanceLutEntry) (xs : List ℕ)
    → IsWhole lo m e xs
    → length xs ≡ m * e.2.1
length-IsWhole lo m e xs (l, whole) = ap length whole ∙ length-laps e.2.0 m e.2.1

-- Other iterations come to an entry behind it.
apart-Tiles :
    (c n s lo m : ℕ) (e : InstructionInstanceLutEntry) (xs : List ℕ)
    → 0 < c
    → 0 < n
    → lo + length xs + n * c < word
    → s + n < word
    → IsWhole lo m e xs
    → Tiles lo (e ∷ (e.1 + 1, e.1 + n * c, (s, c)) ∷ []) (xs ++ laps s n c)
apart-Tiles c n s lo m e xs pc pn total it (l, whole) =
    let ends = l.ends in
    let len = length-IsWhole lo m e xs (l, whole) in
    (
      m,
      laps s n c,
      l,
      ap (λ z. z ++ laps s n c) whole,
      (
        n,
        [],
        record {
          starts = refl;
          some_instances = pc;
          some_iterations = pn;
          ends = omega arith;
          last_is_word = omega (arith, ends, len, total, pos_product lo m e l);
          iterations_are_words = it;
        },
        sym (append-nil (laps s n c)),
        refl,
      ),
    )

-- Iterations with as many instances, which go on where the entry ends, come to it.
grown-Tiles :
    (c n s lo m : ℕ) (e : InstructionInstanceLutEntry) (xs : List ℕ)
    → 0 < n
    → lo + length xs + n * c < word
    → s + n < word
    → e.2.1 ≡ c
    → s ≡ e.2.0 + m
    → IsWhole lo m e xs
    → Tiles lo ((e.0, e.1 + n * c, e.2) ∷ []) (xs ++ laps s n c)
grown-Tiles c n s lo m e xs pn total it same is_next (l, whole) =
    let d = e.2.1 in
    let f = e.2.0 in
    let ends = l.ends in
    let len = length-IsWhole lo m e xs (l, whole) in
    (
      m + n,
      [],
      record {
        starts = l.starts;
        some_instances = l.some_instances;
        some_iterations = omega (arith, pn);
        ends = let grown : n * c ≡ n * d = ap (λ z. n * z) (sym same) in omega (arith, ends, grown);
        last_is_word = omega (arith, ends, len, total, pos_product lo m e l);
        iterations_are_words = omega (arith, is_next, it);
      },
      ap (λ z. z ++ laps s n c) whole
          ∙ ap (λ z. laps f m d ++ laps z n c) is_next
          ∙ ap (λ z. laps f m d ++ laps (f + m) n z) (sym same)
          ∙ laps-add f m n d
          ∙ sym (append-nil (laps f (m + n) d)),
      refl,
    )

-- The iterations come to the last entry, or to a new one behind it.
pub add_entry-Tiles :
    (c n s lo : ℕ) (e : InstructionInstanceLutEntry) (es : List InstructionInstanceLutEntry)
    (xs : List ℕ)
    → 0 < c
    → 0 < n
    → lo + length xs + n * c < word
    → s + n < word
    → Tiles lo (e ∷ es) xs
    → (es' : List InstructionInstanceLutEntry) × (add_entry c n s (e ∷ es) ≡ some es')
      × Tiles lo es' (xs ++ laps s n c)
unfolding add_entry
add_entry-Tiles c n s lo e [] xs pc pn total it (m, ys, l, cut, none_more) =
    let d = e.2.1 in
    let f = e.2.0 in
    let ends = l.ends in
    let pos = mul-pos pn pc in
    let posd = pos_product lo m e l in
    let whole : xs ≡ laps f m d =
      cut ∙ ap (λ z. laps f m d ++ z) none_more ∙ append-nil (laps f m d) in
    let len = length-IsWhole lo m e xs (l, whole) in
    let last : (e.1 + c * n) % word ≡ e.1 + n * c = ground (arith, ends, len, total, posd) in
    let up : (e.1 + 1) % word ≡ e.1 + 1 = ground (arith, ends, len, total, pos) in
    let test = goes_on_lem lo m s e l (omega (arith, len, total)) in
    let two = e ∷ (e.1 + 1, e.1 + n * c, (s, c)) ∷ [] in
    let apart = apart-Tiles c n s lo m e xs pc pn total it (l, whole) in
    elim (Bool-cases (d == c)) [
      | inl p ↦
          let same : d ≡ c = ground (arith, p) in
          let some_c : (c == 0) ≡ false = ground (arith, pc) in
          elim (Bool-cases (s == f + m)) [
            | inl q ↦
                let is_next : s ≡ f + m = ground (arith, q) in
                (
                  (e.0, e.1 + n * c, e.2) ∷ [],
                  rw (p, some_c, test, q, last) refl,
                  grown-Tiles c n s lo m e xs pn total it same is_next (l, whole),
                )
            | inr q ↦ (two, rw (p, some_c, test, q, last, up) refl, apart)
          ]
      | inr p ↦ (two, rw (p, last, up) refl, apart)
    ]
add_entry-Tiles c n s lo e (g ∷ es) xs pc pn total it (m, ys, l, cut, t) =
    let ends = l.ends in
    let len : length xs ≡ m * e.2.1 + length ys =
      ap length cut
      ∙ length-append (laps e.2.0 m e.2.1) ys
      ∙ ap (λ z. z + length ys) (length-laps e.2.0 m e.2.1) in
    let (es', run, t') =
      add_entry-Tiles c n s (e.1 + 1) g es ys pc pn (omega (arith, ends, len, total)) it t in
    (
      e ∷ es',
      rw run refl,
      (
        m,
        ys ++ laps s n c,
        l,
        ap (λ z. z ++ laps s n c) cut ∙ append_assoc (laps e.2.0 m e.2.1) ys (laps s n c),
        t',
      ),
    )
