-- ===== src/Libcam/StaticLoop/Iterations.antt =====
-- The ranges of a lookup of iterations against the iterations one by one.
use cam_alias_checker.Prelude.{
  ℕ, zero, suc, ◌+◌, ◌-◌, ◌≤◌, ◌<◌, ◌≡◌, refl, ap, sym, ◌∙◌, true, false, Option, none, some, List,
  [], ◌∷◌, ◌++◌, append_assoc, replicate, ltb, arith,
}
use cam_alias_checker.Libcam.Repetition.{Range, lookup_data}
use cam_alias_checker.Libcam.Repetition.Lookup.{IsLut, data_at}
use cam_alias_checker.Libcam.Repetition.Built.Each.{EachRange}
use cam_alias_checker.Libcam.StaticLoop.{IterationGroupCfc}
use cam_alias_checker.Libcam.StaticLoop.Laps.{laps, laps-none}
use cam_alias_checker.Libcam.StaticLoop.Instances.{IsUsable, count_in, owners}

-- `n` iterations from `s` on, each as often as `f` says
unfoldable pub laps_by : (ℕ → ℕ) → (s n : ℕ) → List ℕ
laps_by f s zero = []
laps_by f s (suc n) = replicate (f s) s ++ laps_by f (s + 1) n

pub laps_by-agree :
    (f g : ℕ → ℕ) (s n : ℕ)
    → ((i : ℕ) → s ≤ i → i < s + n → f i ≡ g i)
    → laps_by f s n ≡ laps_by g s n
unfolding laps_by
laps_by-agree f g s zero h = refl
laps_by-agree f g s (suc n) h =
    ap (λ z. replicate z s ++ laps_by f (s + 1) n) (h s (omega arith) (omega arith))
    ∙ ap (λ z. replicate (g s) s ++ z)
        (laps_by-agree f g (s + 1) n (λ i le lt. h i (omega (arith, le)) (omega (arith, lt))))

laps_by-laps : (s n c : ℕ) → laps_by (λ i. c) s n ≡ laps s n c
unfolding laps_by laps
laps_by-laps s zero c = refl
laps_by-laps s (suc n) c = ap (λ z. replicate c s ++ z) (laps_by-laps (s + 1) n c)

laps_by-add : (f : ℕ → ℕ) (s n m : ℕ) → laps_by f s (n + m) ≡ laps_by f s n ++ laps_by f (s + n) m
unfolding laps_by
laps_by-add f s zero m =
    let e : 0 + m ≡ m = omega arith in
    let e' : s + 0 ≡ s = omega arith in ap (laps_by f s) e ∙ ap (λ z. laps_by f z m) (sym e')
laps_by-add f s (suc n) m =
    let e : suc n + m ≡ suc (n + m) = omega arith in
    let e' : s + 1 + n ≡ s + suc n = omega arith in
    ap (laps_by f s) e
    ∙ ap (λ z. replicate (f s) s ++ z) (laps_by-add f (s + 1) n m)
    ∙ ap (λ z. replicate (f s) s ++ (laps_by f (s + 1) n ++ laps_by f z m)) e'
    ∙ sym (append_assoc (replicate (f s) s) (laps_by f (s + 1) n) (laps_by f (s + suc n) m))

-- how often a symbol comes in an iteration of the group at a place, if there is one
abbrev pub count_for : ℕ → List IterationGroupCfc → Option ℕ → ℕ
count_for s gs none = 0
count_for s gs (some i) = count_in s gs i

abbrev pub count_by : ℕ → List IterationGroupCfc → List (Range ℕ) → ℕ → ℕ
count_by s gs lut n = count_for s gs (data_at n lut)

count_by-before :
    (s lo n : ℕ) (gs : List IterationGroupCfc) (lut : List (Range ℕ))
    → IsLut lo lut
    → n < lo
    → count_by s gs lut n ≡ 0
unfolding lookup_data
count_by-before s lo n gs [] v lt = refl
count_by-before s lo n gs (x ∷ xs) v lt =
    let p : ltb x.1 n ≡ false = ground (arith, v.0, v.1, lt) in
    let q : ltb n x.0 ≡ true = ground (arith, v.0, lt) in
    let out : data_at n (x ∷ xs) ≡ none = rw (p, q) refl in ap (count_for s gs) out

count_by-within :
    (s n : ℕ) (gs : List IterationGroupCfc) (x : Range ℕ) (xs : List (Range ℕ))
    → x.0 ≤ n
    → n ≤ x.1
    → count_by s gs (x ∷ xs) n ≡ count_in s gs x.2
unfolding lookup_data
count_by-within s n gs x xs le ge =
    let p : ltb x.1 n ≡ false = ground (arith, ge) in
    let q : ltb n x.0 ≡ false = ground (arith, le) in
    let at : data_at n (x ∷ xs) ≡ some x.2 = rw (p, q) refl in ap (count_for s gs) at

count_by-behind :
    (s n : ℕ) (gs : List IterationGroupCfc) (x : Range ℕ) (xs : List (Range ℕ))
    → x.1 < n
    → count_by s gs (x ∷ xs) n ≡ count_by s gs xs n
unfolding lookup_data
count_by-behind s n gs x xs lt =
    let p : ltb x.1 n ≡ true = ground (arith, lt) in
    let at : data_at n (x ∷ xs) ≡ data_at n xs = rw p refl in ap (count_for s gs) at

-- The ranges give each iteration what its lookup gives it.
pub owners-laps_by :
    (s lo k top : ℕ) (gs : List IterationGroupCfc) (lut : List (Range ℕ))
    → lo + k ≡ top
    → IsLut lo lut
    → EachRange (IsUsable gs top) lut
    → owners s gs lut ≡ laps_by (count_by s gs lut) lo k
unfolding owners lookup_data
owners-laps_by s lo k top gs [] e v u = sym (laps_by-laps lo k 0 ∙ laps-none lo k)
owners-laps_by s lo k top gs (x ∷ xs) e v u =
    let f = count_by s gs (x ∷ xs) in
    let below = u.0.ends_below in
    let a = x.0 - lo in
    let b = x.1 + 1 - x.0 in
    let c = top - (x.1 + 1) in
    let le = v.0 in
    let le' = v.1 in
    let e0 : k ≡ a + (b + c) = omega (arith, e, le, le', below) in
    let e1 : lo + a ≡ x.0 = omega (arith, le) in
    let e2 : x.0 + b ≡ x.1 + 1 = omega (arith, le') in
    let e3 : x.1 + 1 + c ≡ top = omega (arith, below) in
    let front : laps_by f lo a ≡ [] =
      laps_by-agree f (λ i. 0) lo a
        (λ i ge lt.
          count_by-before s x.0 i gs (x ∷ xs) (omega arith, le', v.2) (omega (arith, lt, e1)))
      ∙ laps_by-laps lo a 0
      ∙ laps-none lo a in
    let here : laps_by f x.0 b ≡ laps x.0 b (count_in s gs x.2) =
      laps_by-agree f (λ i. count_in s gs x.2) x.0 b
        (λ i ge lt. count_by-within s i gs x xs ge (omega (arith, lt, e2)))
      ∙ laps_by-laps x.0 b (count_in s gs x.2) in
    let rest : laps_by f (x.1 + 1) c ≡ owners s gs xs =
      laps_by-agree f (count_by s gs xs) (x.1 + 1) c
        (λ i ge lt. count_by-behind s i gs x xs (omega (arith, ge)))
      ∙ sym (owners-laps_by s (x.1 + 1) c top gs xs e3 v.2 u.1) in
    sym (
      ap (laps_by f lo) e0
      ∙ laps_by-add f lo a (b + c)
      ∙ ap (λ z. z ++ laps_by f (lo + a) (b + c)) front
      ∙ ap (λ z. laps_by f z (b + c)) e1
      ∙ laps_by-add f x.0 b c
      ∙ ap (λ z. z ++ laps_by f (x.0 + b) c) here
      ∙ ap (λ z. laps x.0 b (count_in s gs x.2) ++ laps_by f z c) e2
      ∙ ap (λ z. laps x.0 b (count_in s gs x.2) ++ z) rest)
