-- ===== src/Libcam/Repetition/Instances.antt =====
-- A repetition pattern stands for a list of instances.
use cam_alias_checker.Prelude.{
  ℕ, zero, suc, ◌+◌, ◌-◌, ◌%◌, ◌≤◌, ◌<◌, ◌≡◌, refl, ap, sym, ◌∙◌, some, List, [], ◌∷◌, ◌++◌,
  append_assoc, append-nil, arith, Bool-cases, inl, inr, ◌==◌, if◌then◌else◌,
}
use cam_alias_checker.Libcam.Machine.{word, sub_word}
use cam_alias_checker.Libcam.Repetition.{
  RepetitionPattern, remove_first_instance, remove_last_instance, get_first_instance,
  get_last_instance,
}
use cam_alias_checker.Libcam.Repetition.Lookup.{IsPattern}

-- `k` instances from `s` on
unfoldable pub counted : (k s : ℕ) → List ℕ
counted zero s = []
counted (suc k) s = s ∷ counted k (s + 1)

unfoldable pub instances : RepetitionPattern → List ℕ
unfolding counted
instances [] = []
instances (r ∷ rs) = counted (r.1 + 1 - r.0) r.0 ++ instances rs

-- The instances are words.
abbrev pub IsBounded : RepetitionPattern → Type 0
IsBounded [] = Unit
IsBounded (r ∷ rs) = (r.1 < word) × IsBounded rs

counted-last : (k s : ℕ) → counted (suc k) s ≡ counted k s ++ (s + k) ∷ []
unfolding counted
counted-last zero s = ap (λ z. z ∷ []) (let e : s ≡ s + 0 = omega arith in e)
counted-last (suc k) s =
    ap (λ z. s ∷ z)
      (counted-last k (s + 1)
        ∙ ap (λ z. counted k (s + 1) ++ z ∷ []) (let e : s + 1 + k ≡ s + suc k = omega arith in e))

removed_first :
    (r : ℕ × ℕ)
    → r.0 ≤ r.1
    → r.1 < word
    → (rs : RepetitionPattern)
    → instances (r ∷ rs) ≡ r.0 ∷ instances (if r.0 == r.1 then rs else ((r.0 + 1) % word, r.1) ∷ rs)
unfolding instances
removed_first r le lt rs = elim (Bool-cases (r.0 == r.1)) [
  | inl p ↦
      let one : r.1 + 1 - r.0 ≡ suc zero = ground arith in
      rw p (ap (λ k. counted k r.0 ++ instances rs) one)
  | inr p ↦
      let some_more : r.1 + 1 - r.0 ≡ suc (r.1 + 1 - (r.0 + 1)) = ground arith in
      let next : (r.0 + 1) % word ≡ r.0 + 1 = ground arith in
      rw (p, next) (ap (λ k. counted k r.0 ++ instances rs) some_more)
]

removed_last :
    (r : ℕ × ℕ)
    → r.0 ≤ r.1
    → r.1 < word
    → instances (r ∷ [])
      ≡ instances (if r.0 == r.1 then [] else (r.0, sub_word r.1 1) ∷ []) ++ r.1 ∷ []
unfolding instances
removed_last r le lt = elim (Bool-cases (r.0 == r.1)) [
  | inl p ↦
      let one : r.1 + 1 - r.0 ≡ suc zero = ground arith in
      let at : r.0 ≡ r.1 = ground arith in
      rw p (ap (λ k. counted k r.0 ++ []) one ∙ ap (λ z. z ∷ []) at)
  | inr p ↦
      let before : sub_word r.1 1 ≡ r.1 - 1 = ground arith in
      let size : r.1 + 1 - r.0 ≡ suc (r.1 - 1 + 1 - r.0) = ground arith in
      let at : r.0 + (r.1 - 1 + 1 - r.0) ≡ r.1 = ground arith in
      let k = r.1 - 1 + 1 - r.0 in
      rw (p, before)
        (append-nil (counted (r.1 + 1 - r.0) r.0)
          ∙ ap (λ z. counted z r.0) size
          ∙ counted-last k r.0
          ∙ ap (λ z. counted k r.0 ++ z ∷ []) at
          ∙ ap (λ z. z ++ r.1 ∷ []) (sym (append-nil (counted k r.0))))
]

last_removed :
    (lo : ℕ) (r : ℕ × ℕ) (rs : RepetitionPattern)
    → IsPattern lo (r ∷ rs)
    → IsBounded (r ∷ rs)
    → (l : ℕ) × (b : RepetitionPattern) × (get_last_instance (r ∷ rs) ≡ some l)
      × (remove_last_instance (r ∷ rs) ≡ some b)
      × (instances (r ∷ rs) ≡ instances b ++ l ∷ [])
unfolding remove_last_instance instances
last_removed lo r [] v w = (
  r.1,
  (if r.0 == r.1 then [] else (r.0, sub_word r.1 1) ∷ []),
  refl,
  refl,
  removed_last r v.1 w.0,
)
last_removed lo r (q ∷ rs) v w =
    let (l, b, e, f, g) = last_removed (r.1 + 1) q rs v.2 w.1 in
    let head = counted (r.1 + 1 - r.0) r.0 in
    (l, r ∷ b, e, rw f refl, ap (λ z. head ++ z) g ∙ sym (append_assoc head (instances b) (l ∷ [])))

-- Removing the first instance of a pattern that is not empty takes it from the front of the
-- instances, and removing the last takes it from their end, also where a range has no other.
pub remove_instance-instances :
    (lo : ℕ) (r : ℕ × ℕ) (rs : RepetitionPattern)
    → IsPattern lo (r ∷ rs)
    → IsBounded (r ∷ rs)
    → ((f : ℕ) × (a : RepetitionPattern) × (get_first_instance (r ∷ rs) ≡ some f)
        × (remove_first_instance (r ∷ rs) ≡ some a)
        × (instances (r ∷ rs) ≡ f ∷ instances a))
      × (l : ℕ) × (b : RepetitionPattern) × (get_last_instance (r ∷ rs) ≡ some l)
      × (remove_last_instance (r ∷ rs) ≡ some b)
      × (instances (r ∷ rs) ≡ instances b ++ l ∷ [])
unfolding remove_first_instance
remove_instance-instances lo r rs v w =
    let (l, b, e, f, g) = last_removed lo r rs v w in
    let rest = if r.0 == r.1 then rs else ((r.0 + 1) % word, r.1) ∷ rs in
    ((r.0, rest, refl, refl, removed_first r v.1 w.0 rs), l, b, e, f, g)
