-- ===== src/Libcam/StaticLoop/Lookup.antt =====
-- The search of the entries of an instruction for the iteration of an instance.
use cam_alias_checker.Prelude.{
  ℕ, ◌+◌, ◌-◌, ◌*◌, ◌/◌, ◌%◌, ◌≤◌, ◌<◌, ◌≡◌, refl, ap, sym, ◌∙◌, true, false, Option, none, some,
  List, [], ◌∷◌, ◌++◌, length, length-append, get_elem?, ltb, ◌==◌, if◌then◌else◌, ◌>>=◌, arith,
  Bool-cases, inl, inr,
}
use native.Mathlib.Nat.{mod-eq_of_lt, div-lt_iff_lt-mul}
use cam_alias_checker.Libcam.Machine.{word, sub_word}
use cam_alias_checker.Libcam.Repetition.Built.{all_reach, first_reaching}
use cam_alias_checker.Libcam.StaticLoop.{InstructionInstanceLutEntry}
use cam_alias_checker.Libcam.StaticLoop.Laps.{
  laps, length-laps, get_elem?-laps, get_elem?-append_left, get_elem?-append_right,
}
use cam_alias_checker.Libcam.StaticLoop.Entries.{IsLap, Tiles, pos_product}

all_reach-Tiles :
    (k lo : ℕ) (es : List InstructionInstanceLutEntry) (xs : List ℕ)
    → k ≤ lo
    → Tiles lo es xs
    → all_reach k es ≡ true
unfolding all_reach
all_reach-Tiles k lo [] xs le t = refl
all_reach-Tiles k lo (e ∷ es) xs le (n, ys, l, cut, t) =
    let ends = l.ends in
    let pos = pos_product lo n e l in
    let here : ltb e.1 k ≡ false = ground (arith, ends, pos, le) in
    rw (here, all_reach-Tiles k (e.1 + 1) es ys (omega (arith, ends, pos, le)) t) refl

-- what `getIterationNumber` computes from the entries
abbrev pub number_in : ℕ → List InstructionInstanceLutEntry → Option ℕ
number_in k es = do
  o ← first_reaching k es
  e ← o
  if e.2.1 == 0 then none else some ((e.2.0 + sub_word k e.0 / e.2.1) % word)

-- The iteration that an entry gives.
entry_number :
    (k lo n : ℕ) (e : InstructionInstanceLutEntry)
    → IsLap lo n e
    → lo ≤ k
    → k ≤ e.1
    → some ((e.2.0 + sub_word k e.0 / e.2.1) % word) ≡ get_elem? (laps e.2.0 n e.2.1) (k - lo)
entry_number k lo n e l le ke =
    let starts = l.starts in
    let ends = l.ends in
    let last = l.last_is_word in
    let it = l.iterations_are_words in
    let j = k - lo in
    let diff : sub_word k e.0 ≡ j = ground (arith, starts, le, ke, last) in
    let below : j < n * e.2.1 = omega (arith, ends, le, ke) in
    let lap : j / e.2.1 < n = (div-lt_iff_lt-mul l.some_instances).1 below in
    ap (λ z. some ((e.2.0 + z / e.2.1) % word)) diff
    ∙ ap some
        (mod-eq_of_lt (let small : e.2.0 + j / e.2.1 < word = omega (arith, lap, it) in small))
    ∙ sym (get_elem?-laps e.2.0 n e.2.1 j l.some_instances below)

pub number_in-Tiles :
    (k lo : ℕ) (es : List InstructionInstanceLutEntry) (xs : List ℕ)
    → lo ≤ k
    → k < lo + length xs
    → Tiles lo es xs
    → number_in k es ≡ get_elem? xs (k - lo)
unfolding first_reaching
number_in-Tiles k lo [] xs le lt t = let len = ap length t in absurd (omega (arith, le, lt, len))
number_in-Tiles k lo (e ∷ es) xs le lt (n, ys, l, cut, t) =
    let ends = l.ends in
    let mine = laps e.2.0 n e.2.1 in
    let len_mine = length-laps e.2.0 n e.2.1 in
    let len = ap length cut ∙ length-append mine ys in
    elim (Bool-cases (ltb e.1 k)) [
      | inl p ↦
          let over : e.1 + 1 ≤ k = ground (arith, p) in
          let split : length mine + (k - (e.1 + 1)) ≡ k - lo =
            omega (arith, len_mine, ends, over) in
          rw p (
            number_in-Tiles k (e.1 + 1) es ys over (omega (arith, len, len_mine, ends, lt)) t
            ∙ sym (get_elem?-append_right mine ys (k - (e.1 + 1)))
            ∙ ap (get_elem? (mine ++ ys)) split
            ∙ ap (λ z. get_elem? z (k - lo)) (sym cut))
      | inr p ↦
          let within : k ≤ e.1 = ground (arith, p) in
          let reach = all_reach-Tiles k (e.1 + 1) es ys (omega (arith, within)) t in
          let some_c : (e.2.1 == 0) ≡ false = (let s = l.some_instances in ground (arith, s)) in
          rw (p, reach, some_c)
            (entry_number k lo n e l le within
              ∙ sym (
                  get_elem?-append_left mine ys (k - lo)
                    (omega (arith, len_mine, ends, le, within)))
              ∙ ap (λ z. get_elem? z (k - lo)) (sym cut))
    ]
