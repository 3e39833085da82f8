-- ===== src/Libcam/MemoryTracer/Record.antt =====
-- The entries that the tracer keeps stand for the accesses that it has recorded.
use cam_alias_checker.Prelude.{
  ℕ, zero, suc, ◌+◌, ◌-◌, ◌*◌, ◌%◌, ◌≤◌, ◌<◌, ◌≡◌, refl, ap, sym, subst, ◌∙◌, List, [], ◌∷◌, ◌++◌,
  append_assoc, ◌==◌, arith, Bool-cases, ==_iff, inl, inr,
}
use cam_alias_checker.Libcam.Machine.{word, sub_word}
use cam_alias_checker.Libcam.Accesses.{Access, run, run_one}
use cam_alias_checker.Libcam.MemoryTracer.{
  TracerMemSetEntry, TracerMemSet, get_num_instances, prediction, record_memory_reference,
}

unfoldable pub entry_accesses : TracerMemSetEntry → List Access
entry_accesses e = run (e.end + 1 - e.start) e.base e.stride e.length

-- the accesses of a set in the order in which they were recorded
unfoldable pub accesses : TracerMemSet → List Access
unfolding entry_accesses
accesses [] = []
accesses (e ∷ es) = accesses es ++ entry_accesses e

-- The entries number their instances without a gap, from 0 to below `n`.
abbrev pub IsNumbered : ℕ → TracerMemSet → Type 0
IsNumbered n [] = n ≡ 0
IsNumbered n (e ∷ es) =
    (e.end + 1 ≡ n)
    × (e.start ≤ e.end)
    × (e.base < word)
    × (e.stride < word)
    × (e.length < word)
    × IsNumbered e.start es

-- `es'` is `es` with one access more.
abbrev IsRecorded : (n addr len : ℕ) (es es' : TracerMemSet) → Type 0
IsRecorded n addr len es es' =
    IsNumbered (n + 1) es' × (accesses es' ≡ accesses es ++ (addr, len) ∷ [])

run_single :
    (n base stride len : ℕ) → base < word → run (n + 1 - n) base stride len ≡ (base, len) ∷ []
run_single n base stride len lt =
    rw (let k : n + 1 - n ≡ 1 = omega arith in k) (run_one base stride len lt)

new_entry-IsRecorded :
    (n addr len : ℕ) (es : TracerMemSet)
    → IsNumbered n es
    → addr < word
    → len < word
    → IsRecorded n addr len es
        (record { base = addr; stride = 0; length = len; start = n; end = n } ∷ es)
unfolding accesses
new_entry-IsRecorded n addr len es v la ll = (
  (refl, omega arith, la, omega arith, ll, v),
  ap (λ a. accesses es ++ a) (run_single n addr 0 len la),
)

-- an entry that grows by one instance
grown-IsRecorded :
    (n addr s : ℕ) (e : TracerMemSetEntry) (es : TracerMemSet)
    → IsNumbered n (e ∷ es)
    → s < word
    → run (n + 1 - e.start) e.base s e.length ≡ entry_accesses e ++ (addr, e.length) ∷ []
    → IsRecorded n addr e.length (e ∷ es) (record e { stride = s; end = n } ∷ es)
unfolding accesses entry_accesses
grown-IsRecorded n addr s e es v ls h = (
  (refl, omega (arith, v.0, v.1), v.2, ls, v.4, v.5),
  ap (λ a. accesses es ++ a) h
      ∙ sym (append_assoc (accesses es) (entry_accesses e) ((addr, e.length) ∷ [])),
)

-- the run of an entry with one more instance, at the predicted address
predicted_run :
    (n addr : ℕ) (e : TracerMemSetEntry) (es : TracerMemSet)
    → IsNumbered n (e ∷ es)
    → n < word
    → prediction e ≡ addr
    → run (n + 1 - e.start) e.base e.stride e.length ≡ entry_accesses e ++ (addr, e.length) ∷ []
unfolding entry_accesses run
predicted_run n addr e es v lt p =
    let k : n + 1 - e.start ≡ suc (e.end + 1 - e.start) = omega (arith, v.0, v.1) in
    let count : get_num_instances e ≡ e.end + 1 - e.start = omega (arith, v.0, v.1) in
    let at : (e.base + (e.end + 1 - e.start) * e.stride) % word ≡ addr =
      let same : e.base + e.stride * get_num_instances e
          ≡ e.base + (e.end + 1 - e.start) * e.stride =
        rw count (omega arith) in
      subst (λ x. x % word ≡ addr) same p in
    rw (k, at)

-- the run of an entry of one instance with a second one, which fixes the stride
second_run :
    (n addr : ℕ) (e : TracerMemSetEntry) (es : TracerMemSet)
    → IsNumbered n (e ∷ es)
    → addr < word
    → e.start ≡ e.end
    → run (n + 1 - e.start) e.base (sub_word addr e.base) e.length
      ≡ entry_accesses e ++ (addr, e.length) ∷ []
unfolding entry_accesses run
second_run n addr e es v la p =
    let k : n + 1 - e.start ≡ suc (suc zero) = omega (arith, v.0, v.1) in
    let count : e.end + 1 - e.start ≡ suc zero = omega (arith, v.0, v.1) in
    let at : (e.base + suc zero * sub_word addr e.base) % word ≡ addr = omega (arith, v.2, la) in
    let first : (e.base + 0 * sub_word addr e.base) % word ≡ (e.base + 0 * e.stride) % word =
      omega arith in
    rw (k, count, at, first)

-- Recording fewer than 2 ^ 64 accesses adds each one at the end.
pub record_memory_reference-accesses :
    (es : TracerMemSet) (n addr len : ℕ)
    → IsNumbered n es
    → n < word
    → addr < word
    → len < word
    → IsNumbered (n + 1) (record_memory_reference es addr len)
      × (accesses (record_memory_reference es addr len) ≡ accesses es ++ (addr, len) ∷ [])
unfolding record_memory_reference
record_memory_reference-accesses [] n addr len v lt la ll =
    rw (let z : n ≡ 0 = v in z) (new_entry-IsRecorded 0 addr len [] refl la ll)
record_memory_reference-accesses (e ∷ es) n addr len v lt la ll =
    let next : (e.end + 1) % word ≡ n = omega (arith, v.0) in
    let new = new_entry-IsRecorded n addr len (e ∷ es) v la ll in
    elim (Bool-cases (e.length == len)) [
      | inr l ↦ rw (l, next) new
      | inl l ↦
          let same : e.length ≡ len = (==_iff e.length len).0 l in
          elim (Bool-cases (e.start == e.end)) [
            | inl s ↦
                rw (l, s, next)
                  (subst
                    (λ k.
                      IsRecorded n addr k (e ∷ es)
                        (record e { stride = sub_word addr e.base; end = n } ∷ es))
                    same
                    (grown-IsRecorded n addr (sub_word addr e.base) e es v (omega arith)
                      (second_run n addr e es v la ((==_iff e.start e.end).0 s))))
            | inr s ↦ elim (Bool-cases (prediction e == addr)) [
              | inl p ↦
                  rw (l, s, p, next)
                    (subst (λ k. IsRecorded n addr k (e ∷ es) (record e { end = n } ∷ es)) same
                      (grown-IsRecorded n addr e.stride e es v v.3
                        (predicted_run n addr e es v lt ((==_iff (prediction e) addr).0 p))))
              | inr p ↦ rw (l, s, p, next) new
            ]
          ]
    ]
