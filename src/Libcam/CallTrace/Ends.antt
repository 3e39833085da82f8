-- ===== src/Libcam/CallTrace/Ends.antt =====
-- A repetition pattern without its first or its last instance, by the instances that it covers.
use cam_alias_checker.Prelude.{
  ℕ, ◌+◌, ◌%◌, ◌≤◌, ◌<◌, ◌≡◌, refl, true, false, some, [], ◌∷◌, ◌==◌, arith, Bool-cases, inl, inr,
}
use cam_alias_checker.Libcam.Machine.{word, sub_word}
use cam_alias_checker.Libcam.Repetition.{
  RepetitionPattern, remove_first_instance, remove_last_instance, get_last_instance,
}
use cam_alias_checker.Libcam.Repetition.Lookup.{within, covers, IsPattern}
use cam_alias_checker.Libcam.Repetition.Instances.{IsBounded}

pub covers_below :
    (n lo : ℕ) (rs : RepetitionPattern) → n < lo → IsPattern lo rs → covers n rs ≡ false
unfolding covers
covers_below n lo [] lt v = refl
covers_below n lo (r ∷ rs) lt v =
    let out : within n r.0 r.1 ≡ false = ground (arith, lt, v.0) in
    rw (out, covers_below n (r.1 + 1) rs (omega (arith, lt, v.0, v.1)) v.2) refl

-- `b` covers what `rs` does, but for `l`.
pub record Without (l : ℕ) (rs b : RepetitionPattern) : Type 0 where
  pub gone : covers l b ≡ false
  pub had : covers l rs ≡ true
  pub same : (n : ℕ) → (n == l) ≡ false → covers n b ≡ covers n rs

pub remove_first_instance-Without :
    (lo : ℕ) (r : ℕ × ℕ) (rs : RepetitionPattern)
    → IsPattern lo (r ∷ rs)
    → r.1 < word
    → (b : RepetitionPattern) × (remove_first_instance (r ∷ rs) ≡ some b) × Without r.0 (r ∷ rs) b
unfolding remove_first_instance covers
remove_first_instance-Without lo r rs v lt = elim (Bool-cases (r.0 == r.1)) [
  | inl p ↦
      let below = covers_below r.0 (r.1 + 1) rs (ground (arith, p)) v.2 in
      (
        rs,
        rw p refl,
        record {
          gone = below;
          had = ground (arith, v.1);
          same = λ n ne. let out : within n r.0 r.1 ≡ false = ground (arith, p, ne) in rw out refl;
        },
      )
  | inr p ↦
      let below = covers_below r.0 (r.1 + 1) rs (omega (arith, v.1)) v.2 in
      let up : (r.0 + 1) % word ≡ r.0 + 1 = ground (arith, p, v.1, lt) in
      (
        (r.0 + 1, r.1) ∷ rs,
        rw (p, up) refl,
        record {
          gone = let out : within r.0 (r.0 + 1) r.1 ≡ false = ground arith in rw (out, below) refl;
          had = ground (arith, v.1);
          same = λ n ne.
              let e : within n (r.0 + 1) r.1 ≡ within n r.0 r.1 = ground (arith, ne) in rw e refl;
        },
      )
]

pub remove_last_instance-Without :
    (lo : ℕ) (r : ℕ × ℕ) (rs : RepetitionPattern)
    → IsPattern lo (r ∷ rs)
    → IsBounded (r ∷ rs)
    → (l : ℕ) × (b : RepetitionPattern) × (get_last_instance (r ∷ rs) ≡ some l)
      × (remove_last_instance (r ∷ rs) ≡ some b)
      × (r.1 ≤ l)
      × Without l (r ∷ rs) b
unfolding remove_last_instance covers
remove_last_instance-Without lo r [] v w = elim (Bool-cases (r.0 == r.1)) [
  | inl p ↦ (
    r.1,
    [],
    refl,
    rw p refl,
    omega arith,
    record {
      gone = refl;
      had = ground (arith, v.1);
      same = λ n ne. let out : within n r.0 r.1 ≡ false = ground (arith, p, ne) in rw out refl;
    },
  )
  | inr p ↦
      let lt = w.0 in
      let down : sub_word r.1 1 + 1 ≡ r.1 = ground (arith, p, v.1, lt) in
      (
        r.1,
        (r.0, sub_word r.1 1) ∷ [],
        refl,
        rw p refl,
        omega arith,
        record {
          gone =
              let out : within r.1 r.0 (sub_word r.1 1) ≡ false = ground (arith, down) in
              rw out refl;
          had = ground (arith, v.1);
          same = λ n ne.
              let e : within n r.0 (sub_word r.1 1) ≡ within n r.0 r.1 = ground (arith, ne, down) in
              rw e refl;
        },
      )
]
remove_last_instance-Without lo r (q ∷ rs) v w =
    let (l, b, last, removed, le, rest) = remove_last_instance-Without (r.1 + 1) q rs v.2 w.1 in
    let out : within l r.0 r.1 ≡ false = ground (arith, le, v.2.0, v.2.1) in
    (
      l,
      r ∷ b,
      last,
      rw removed refl,
      omega (arith, le, v.2.0, v.2.1),
      record {
        gone = rw (out, rest.gone) refl;
        had = rw (out, rest.had) refl;
        same = λ n ne. rw (rest.same n ne) refl;
      },
    )
