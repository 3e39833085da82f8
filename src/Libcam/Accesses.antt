-- ===== src/Libcam/Accesses.antt =====
-- What a strided pattern of accesses stands for: the address and the length of each access in order.
use cam_alias_checker.Prelude.{
  ℕ, zero, suc, ◌+◌, ◌-◌, ◌*◌, ◌%◌, ◌<◌, ◌≤◌, ◌≡◌, refl, List, [], ◌∷◌, ◌++◌, append-nil,
  append_assoc, arith, length, length-append, ap, sym, ◌∙◌, take, drop, take_append, drop_append,
  reverse,
}
use mathlib.Core.List.{reverse-append}
use cam_alias_checker.Libcam.Machine.{word, add-congruent, mul-congruent}

abbrev pub Access : Type 0
Access = ℕ × ℕ

-- `n` accesses of `len` bytes from `base` on
unfoldable pub run : (n base stride len : ℕ) → List Access
run zero base stride len = []
run (suc n) base stride len = run n base stride len ++ ((base + n * stride) % word, len) ∷ []

pub run_one : (base stride len : ℕ) → base < word → run 1 base stride len ≡ (base, len) ∷ []
unfolding run
run_one base stride len lt =
    ap (λ a. (a, len) ∷ []) (let e : (base + 0 * stride) % word ≡ base = omega arith in e)

pub length-run : (n base stride len : ℕ) → length (run n base stride len) ≡ n
unfolding run
length-run zero base stride len = refl
length-run (suc n) base stride len = omega (
  arith,
  length-append (run n base stride len) (((base + n * stride) % word, len) ∷ []),
  length-run n base stride len,
)

-- An access depends only on the base and the stride as words.
pub run-congruent :
    (n a b s t len : ℕ) → a % word ≡ b % word → s % word ≡ t % word → run n a s len ≡ run n b t len
unfolding run
run-congruent zero a b s t len e f = refl
run-congruent (suc n) a b s t len e f =
    let at : (a + n * s) % word ≡ (b + n * t) % word =
      add-congruent a b (n * s) (n * t) e (mul-congruent n s t f) in
    rw (run-congruent n a b s t len e f, at)

pub run-add :
    (n m base stride len : ℕ)
    → run (n + m) base stride len ≡ run n base stride len ++ run m (base + n * stride) stride len
unfolding run
run-add n zero base stride len = rw (let e : n + 0 ≡ n = omega arith in e, append-nil)
run-add n (suc m) base stride len =
    let count : n + suc m ≡ suc (n + m) = omega arith in
    let place : base + (n + m) * stride ≡ base + n * stride + m * stride = omega arith in
    rw (count, run-add n m base stride len, place)
      (append_assoc (run n base stride len) (run m (base + n * stride) stride len)
        (((base + n * stride + m * stride) % word, len) ∷ []))

-- A run is its first `k` accesses and the others, which start at a word again.
pub run_split :
    (n k base stride len : ℕ)
    → k ≤ n
    → run n base stride len
      ≡ run k base stride len ++ run (n - k) ((base + k * stride) % word) stride len
run_split n k base stride len le =
    ap (λ z. run z base stride len) (let e : n ≡ k + (n - k) = omega arith in e)
    ∙ run-add k (n - k) base stride len
    ∙ ap (λ r. run k base stride len ++ r)
        (run-congruent (n - k) (base + k * stride) ((base + k * stride) % word) stride stride len
          (omega arith) refl)

-- `m` accesses within a run, after the first `k`.
pub run_part :
    (n k m base stride len : ℕ)
    → k + m ≤ n
    → run m ((base + k * stride) % word) stride len ≡ take m (drop k (run n base stride len))
run_part n k m base stride len le =
    let later = (base + k * stride) % word in
    let rest = run (n - k - m) ((later + m * stride) % word) stride len in
    sym (
      ap (λ r. take m (drop k r)) (run_split n k base stride len (omega arith))
      ∙ ap (take m) (
          drop_append k (run k base stride len) (run (n - k) later stride len)
            (length-run k base stride len))
      ∙ ap (take m) (run_split (n - k) m later stride len (omega arith))
      ∙ take_append m (run m later stride len) rest (length-run m later stride len))

-- A run backwards is a run from its last access with the opposite stride.
pub reverse-run :
    (n base stride back len : ℕ)
    → (stride + back) % word ≡ 0
    → reverse (run (suc n) base stride len) ≡ run (suc n) (base + n * stride) back len
unfolding run
reverse-run zero base stride back len e =
    ap (λ a. (a, len) ∷ [])
      (let same : (base + 0 * stride) % word ≡ (base + 0 * stride + 0 * back) % word =
          omega arith in
        same)
reverse-run (suc n) base stride back len e =
    let x = (base + suc n * stride) % word in
    let here : x ≡ (base + suc n * stride + 0 * back) % word = omega arith in
    let onward : (base + n * stride) % word ≡ (base + suc n * stride + 1 * back) % word =
      omega (arith, e) in
    let front = base + suc n * stride in
    reverse-append (run (suc n) base stride len) ((x, len) ∷ [])
    ∙ ap (λ r. (x, len) ∷ r)
        (reverse-run n base stride back len e
          ∙ run-congruent (suc n) (base + n * stride) (front + 1 * back) back back len onward refl)
    ∙ ap (λ y. (y, len) ∷ run (suc n) (front + 1 * back) back len) here
    ∙ sym (run-add 1 (suc n) front back len)
    ∙ ap (λ z. run z front back len) (let k : 1 + suc n ≡ suc (suc n) = omega arith in k)
