-- ===== src/Libcam/Repetition/Built/Walk.antt =====
-- A loop over a `RepetitionPatternLookup`, from `begin` by `next` to `end`, as in the loops of
-- libcam/src/loop_trace.cpp over the instances of a call.
use cam_alias_checker.Prelude.{
  ℕ, zero, suc, ◌+◌, ◌-◌, ◌%◌, ◌≤◌, ◌<◌, ◌≡◌, refl, ap, ◌∙◌, true, false, ◌&&◌, Option, none, some,
  List, [], ◌∷◌, ◌++◌, length, get_elem?, get_elem?-none, arith, ◌==◌, if◌then◌else◌, ◌>>=◌,
}
use cam_alias_checker.Libcam.Machine.{word}
use cam_alias_checker.Libcam.Repetition.{RepetitionPattern, Range}
use cam_alias_checker.Libcam.Repetition.Instances.{counted, instances}
use cam_alias_checker.Libcam.Repetition.Built.{begin, end_of, start_at, next}

module _ {D : Type 0} where
  -- the instances that the loop comes to
  unfoldable pub walk : (fuel : ℕ) → List (Range D) → ℕ × ℕ → Option (List ℕ)
  unfolding next
  walk zero lut it = none
  walk (suc fuel) lut it =
      let step = next lut it >>= λ it'. walk fuel lut it' >>= λ ns. some (it.1 ∷ ns) in
      if (it.0 == length lut) && (it.1 == 0) then some [] else step

  abbrev pub ranges_of : List (Range D) → RepetitionPattern
  ranges_of [] = []
  ranges_of (x ∷ xs) = (x.0, x.1) ∷ ranges_of xs

  -- Each range has an instance, and the instances are words.
  abbrev pub AreRanges : List (Range D) → Type 0
  AreRanges [] = Unit
  AreRanges (x ∷ xs) = (x.0 ≤ x.1) × (x.1 < word) × AreRanges xs

  -- the rounds of the loop: one for each instance, and the last one
  abbrev pub rounds : List (Range D) → ℕ
  rounds [] = 1
  rounds (x ∷ xs) = (x.1 + 1 - x.0) + rounds xs

  -- `ys` is what stands from place `i` on
  record IsSuffix (lut : List (Range D)) (i : ℕ) (ys : List (Range D)) : Type 0 where
    size : length lut ≡ i + length ys
    same : (k : ℕ) → get_elem? lut (i + k) ≡ get_elem? ys k

  suffix-tail :
      (lut : List (Range D)) (i : ℕ) (y : Range D) (ys : List (Range D))
      → IsSuffix lut i (y ∷ ys)
      → IsSuffix lut (i + 1) ys
  suffix-tail lut i y ys v =
      let size = v.size in
      record {
        size = omega (arith, size);
        same = λ k.
            ap (get_elem? lut) (let e : i + 1 + k ≡ i + suc k = omega arith in e) ∙ v.same (suc k);
      }

  suffix-head :
      (lut : List (Range D)) (i : ℕ) (y : Range D) (ys : List (Range D))
      → IsSuffix lut i (y ∷ ys)
      → (get_elem? lut i ≡ some y) × (i < length lut)
  suffix-head lut i y ys v =
      let size = v.size in
      (ap (get_elem? lut) (let e : i ≡ i + 0 = omega arith in e) ∙ v.same 0, omega (arith, size))

  -- The rounds in one range, with `k` instances to come behind `n`.
  walk_range :
      (lut : List (Range D)) (i n k f : ℕ) (x : Range D) (ns : List ℕ)
      → get_elem? lut i ≡ some x
      → i < length lut
      → x.1 < word
      → n + k ≡ x.1
      → walk f lut (start_at lut (i + 1)) ≡ some ns
      → walk (suc (k + f)) lut (i, n) ≡ some (counted (suc k) n ++ ns)
  unfolding walk next counted
  walk_range lut i n zero f x ns at lt bound e run =
      let inside : (i == length lut) ≡ false = ground (arith, lt) in
      let done : (n == x.1) ≡ true = ground (arith, e) in
      let fuel : zero + f ≡ f = omega arith in rw (inside, at, done, fuel, run) refl
  walk_range lut i n (suc k) f x ns at lt bound e run =
      let inside : (i == length lut) ≡ false = ground (arith, lt) in
      let more : (n == x.1) ≡ false = ground (arith, e) in
      let up : (n + 1) % word ≡ n + 1 = ground (arith, bound, e) in
      let fuel : suc k + f ≡ suc (k + f) = omega arith in
      let rest =
        walk_range lut i (n + 1) k f x ns at lt bound
          (let e' : n + 1 + k ≡ x.1 = omega (arith, e) in e') run in
      rw (inside, at, more, up, fuel, rest) refl

  walk_suffix :
      (lut : List (Range D)) (i : ℕ) (ys : List (Range D))
      → IsSuffix lut i ys
      → AreRanges ys
      → walk (rounds ys) lut (start_at lut i) ≡ some (instances (ranges_of ys))
  unfolding walk instances
  walk_suffix lut i [] v r =
      let size = v.size in
      let out = get_elem?-none lut i (omega (arith, size)) in
      let end : (length lut == length lut) ≡ true = ground arith in
      let here : start_at lut i ≡ end_of lut = rw (start_at, out) refl in rw (here, end) refl
  walk_suffix lut i (y ∷ ys) v r =
      let (at, lt) = suffix-head lut i y ys v in
      let k = y.1 - y.0 in
      let le = r.0 in
      let count : y.1 + 1 - y.0 ≡ suc k = omega (arith, le) in
      let total : y.1 + 1 - y.0 + rounds ys ≡ suc (k + rounds ys) = omega (arith, le) in
      let rest = walk_suffix lut (i + 1) ys (suffix-tail lut i y ys v) r.2 in
      let here : start_at lut i ≡ (i, y.0) = rw (start_at, at) refl in
      rw (here, total, count)
        (walk_range lut i y.0 k (rounds ys) y (instances (ranges_of ys)) at lt r.1
          (omega (arith, le)) rest)

  -- The loop ends, and comes to each instance of the ranges once, in order.
  pub walk-begin :
      (lut : List (Range D))
      → AreRanges lut
      → walk (rounds lut) lut (begin lut) ≡ some (instances (ranges_of lut))
  walk-begin lut r =
      walk_suffix lut 0 lut
        record {
          size = omega arith;
          same = λ k. ap (get_elem? lut) (let e : 0 + k ≡ k = omega arith in e);
        }
        r
