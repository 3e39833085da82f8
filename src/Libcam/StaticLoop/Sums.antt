-- ===== src/Libcam/StaticLoop/Sums.antt =====
-- Sums over iterations, and the number of iterations of a pattern.
use cam_alias_checker.Prelude.{
  ℕ, zero, suc, ◌+◌, ◌-◌, ◌*◌, ◌%◌, ◌≤◌, ◌<◌, ◌≡◌, refl, ap, ◌∙◌, true, false, [], ◌∷◌, length,
  length-append, length-replicate, replicate, if◌then◌else◌, arith,
}
use cam_alias_checker.Libcam.Machine.{word}
use cam_alias_checker.Libcam.Repetition.{RepetitionPattern}
use cam_alias_checker.Libcam.Repetition.Lookup.{within, covers, IsPattern}
use cam_alias_checker.Libcam.Repetition.Built.Each.{EachOf}
use cam_alias_checker.Libcam.CallTrace.Ends.{covers_below}
use cam_alias_checker.Libcam.StaticLoop.{iterations_in, number_of_iterations_from}
use cam_alias_checker.Libcam.StaticLoop.Iterations.{laps_by}

-- the sum of `f` over the `n` iterations from `s` on
unfoldable pub sum : (ℕ → ℕ) → (s n : ℕ) → ℕ
sum f s zero = 0
sum f s (suc n) = f s + sum f (s + 1) n

pub length-laps_by : (f : ℕ → ℕ) (s n : ℕ) → length (laps_by f s n) ≡ sum f s n
unfolding laps_by sum
length-laps_by f s zero = refl
length-laps_by f s (suc n) = omega (
  arith,
  length-append (replicate (f s) s) (laps_by f (s + 1) n),
  length-replicate (f s) s,
  length-laps_by f (s + 1) n,
)

pub sum-agree :
    (f g : ℕ → ℕ) (s n : ℕ) → ((i : ℕ) → s ≤ i → i < s + n → f i ≡ g i) → sum f s n ≡ sum g s n
unfolding sum
sum-agree f g s zero h = refl
sum-agree f g s (suc n) h =
    let here = h s (omega arith) (omega arith) in
    let rest = sum-agree f g (s + 1) n (λ i le lt. h i (omega (arith, le)) (omega (arith, lt))) in
    omega (arith, here, rest)

pub sum-constant : (c s n : ℕ) → sum (λ i. c) s n ≡ n * c
unfolding sum
sum-constant c s zero = omega arith
sum-constant c s (suc n) = omega (arith, sum-constant c (s + 1) n)

sum-append : (f : ℕ → ℕ) (s n m : ℕ) → sum f s (n + m) ≡ sum f s n + sum f (s + n) m
unfolding sum
sum-append f s zero m =
    let e : 0 + m ≡ m = omega arith in
    let e' : s ≡ s + 0 = omega arith in
    let e'' : sum f (s + 0) m ≡ 0 + sum f (s + 0) m = omega arith in
    ap (sum f s) e ∙ ap (λ z. sum f z m) e' ∙ e''
sum-append f s (suc n) m =
    let e : suc n + m ≡ suc (n + m) = omega arith in
    let e' : s + 1 + n ≡ s + suc n = omega arith in
    let rest = sum-append f (s + 1) n m ∙ ap (λ z. sum f (s + 1) n + sum f z m) e' in
    ap (sum f s) e ∙ omega (arith, rest)

pub sum-plus : (f g : ℕ → ℕ) (s n : ℕ) → sum (λ i. f i + g i) s n ≡ sum f s n + sum g s n
unfolding sum
sum-plus f g s zero = omega arith
sum-plus f g s (suc n) = omega (arith, sum-plus f g (s + 1) n)

-- the number of iterations of a pattern, however great
unfoldable pub size_of : RepetitionPattern → ℕ
size_of [] = 0
size_of (r ∷ rs) = r.1 + 1 - r.0 + size_of rs

-- `w` in the iterations of a pattern
abbrev pub weight : ℕ → RepetitionPattern → ℕ → ℕ
weight w rs i = if covers i rs then w else 0

weight_within :
    (w i : ℕ) (r : ℕ × ℕ) (rs : RepetitionPattern) → r.0 ≤ i → i ≤ r.1 → weight w (r ∷ rs) i ≡ w
unfolding covers
weight_within w i r rs le ge = let p : within i r.0 r.1 ≡ true = ground (arith, le, ge) in rw p refl

weight_behind :
    (w i : ℕ) (r : ℕ × ℕ) (rs : RepetitionPattern) → r.1 < i → weight w (r ∷ rs) i ≡ weight w rs i
unfolding covers
weight_behind w i r rs lt = let p : within i r.0 r.1 ≡ false = ground (arith, lt) in rw p refl

pub sum-weight :
    (w lo k top : ℕ) (rs : RepetitionPattern)
    → lo + k ≡ top
    → IsPattern lo rs
    → EachOf (λ x. x.1 < top) rs zero
    → sum (weight w rs) lo k ≡ size_of rs * w
unfolding covers size_of
sum-weight w lo k top [] e v u = sum-constant 0 lo k ∙ omega arith
sum-weight w lo k top (r ∷ rs) e v u =
    let f = weight w (r ∷ rs) in
    let below = u.0 in
    let le = v.0 in
    let le' = v.1 in
    let a = r.0 - lo in
    let b = r.1 + 1 - r.0 in
    let c = top - (r.1 + 1) in
    let e0 : k ≡ a + (b + c) = omega (arith, e, le, le', below) in
    let e1 : lo + a ≡ r.0 = omega (arith, le) in
    let e2 : r.0 + b ≡ r.1 + 1 = omega (arith, le') in
    let e3 : r.1 + 1 + c ≡ top = omega (arith, below) in
    let front : sum f lo a ≡ 0 =
      sum-agree f (λ i. 0) lo a
        (λ i ge lt.
          ap (λ z. if z then w else 0)
            (covers_below i r.0 (r ∷ rs) (omega (arith, lt, e1)) (omega arith, le', v.2)))
      ∙ sum-constant 0 lo a
      ∙ omega arith in
    let here : sum f r.0 b ≡ b * w =
      sum-agree f (λ i. w) r.0 b (λ i ge lt. weight_within w i r rs ge (omega (arith, lt, e2)))
      ∙ sum-constant w r.0 b in
    let rest : sum f (r.1 + 1) c ≡ size_of rs * w =
      sum-agree f (weight w rs) (r.1 + 1) c (λ i ge lt. weight_behind w i r rs (omega (arith, ge)))
      ∙ sum-weight w (r.1 + 1) c top rs e3 v.2 u.1 in
    let parts : sum f lo (a + (b + c)) ≡ sum f lo a + (sum f r.0 b + sum f (r.1 + 1) c) =
      sum-append f lo a (b + c)
      ∙ ap (λ z. sum f lo a + sum f z (b + c)) e1
      ∙ ap (λ z. sum f lo a + z) (sum-append f r.0 b c)
      ∙ ap (λ z. sum f lo a + (sum f r.0 b + sum f z c)) e2 in
    let whole : (b + size_of rs) * w ≡ b * w + size_of rs * w = omega arith in
    ap (sum f lo) e0 ∙ parts ∙ omega (arith, front, here, rest, whole)

-- `getNumberOfIterations_slow` counts the iterations as a word.
pub number_of_iterations_lem :
    (lo top n : ℕ) (rs : RepetitionPattern)
    → top < word
    → IsPattern lo rs
    → EachOf (λ x. x.1 < top) rs zero
    → number_of_iterations_from rs n % word ≡ (n + size_of rs) % word
unfolding number_of_iterations_from size_of
number_of_iterations_lem lo top n [] small v u =
    ap (λ z. z % word) (let e : n ≡ n + 0 = omega arith in e)
number_of_iterations_lem lo top n (r ∷ rs) small v u =
    let below = u.0 in
    let le = v.1 in
    let b = r.1 + 1 - r.0 in
    let one : iterations_in r.0 r.1 ≡ b = ground (arith, le, below, small) in
    let rest = number_of_iterations_lem (r.1 + 1) top ((n + b) % word) rs small v.2 u.1 in
    ap (λ z. number_of_iterations_from rs ((n + z) % word) % word) one
    ∙ rest
    ∙ (let e : ((n + b) % word + size_of rs) % word ≡ (n + (b + size_of rs)) % word = omega arith in
        e)
