-- ===== src/Libcam/Dependence/BruteForce.antt =====
-- `isAliasBruteForce` finds a common byte of two entries exactly when there is one.
use cam_alias_checker.Prelude.{
  ℕ, zero, suc, ◌+◌, ◌*◌, ◌%◌, leb, ◌≤◌, ◌<◌, ◌≡◌, ◌↔◌, refl, sym, subst, ==_iff, Bool, true, false,
  arith, Bool-cases, inl, inr, if◌then◌else◌, ◌==◌,
}
use cam_alias_checker.Libcam.Machine.{word, sub_word}
use cam_alias_checker.Libcam.MemSet.{MemSetEntry, get_num_instances}
use cam_alias_checker.Libcam.Dependence.{overlaps, any_write, any_read, is_alias_brute_force}

if_true : {b : Bool} (c : Bool) → b ≡ true → (if b then true else c) ≡ true
if_true c h = rw h

if_rest : {c : Bool} (b : Bool) → c ≡ true → (if b then true else c) ≡ true
if_rest true h = refl
if_rest false h = h

module _ (w r : MemSetEntry) where
  any_write-found :
      (n i j : ℕ) → any_write n w r i j ≡ true → (k : ℕ) × (k < i + n) × (overlaps w r k j ≡ true)
  unfolding any_write
  any_write-found zero i j h = cc
  any_write-found (suc n) i j h = elim (Bool-cases (overlaps w r i j)) [
    | inl o ↦ (i, omega arith, o)
    | inr o ↦
        let (k, lt, found) = any_write-found n (i + 1) j (ground (arith, h, o)) in
        (k, omega arith, found)
  ]

  any_write-true :
      (n i j k : ℕ) → i ≤ k → k < i + n → overlaps w r k j ≡ true → any_write n w r i j ≡ true
  unfolding any_write
  any_write-true zero i j k le lt h = absurd (omega arith)
  any_write-true (suc n) i j k le lt h = elim (Bool-cases (i == k)) [
    | inl e ↦
        if_true (any_write n w r (i + 1) j)
          (subst (λ x. overlaps w r x j ≡ true) (sym ((==_iff i k).0 e)) h)
    | inr e ↦
        if_rest (overlaps w r i j) (any_write-true n (i + 1) j k (ground arith) (omega arith) h)
  ]

  any_read-found :
      (n j : ℕ)
      → any_read n w r j ≡ true
      → (k : ℕ) × (l : ℕ) × (k < get_num_instances w) × (l < j + n) × (overlaps w r k l ≡ true)
  unfolding any_read
  any_read-found zero j h = cc
  any_read-found (suc n) j h = elim (Bool-cases (any_write (get_num_instances w) w r 0 j)) [
    | inl o ↦
        let (k, lt, found) = any_write-found (get_num_instances w) 0 j o in
        (k, j, omega (arith, lt), omega arith, found)
    | inr o ↦
        let (k, l, lk, ll, found) = any_read-found n (j + 1) (ground (arith, h, o)) in
        (k, l, lk, omega arith, found)
  ]

  any_read-true :
      (n j k l : ℕ)
      → k < get_num_instances w
      → j ≤ l
      → l < j + n
      → overlaps w r k l ≡ true
      → any_read n w r j ≡ true
  unfolding any_read
  any_read-true zero j k l lk le lt h = absurd (omega arith)
  any_read-true (suc n) j k l lk le lt h = elim (Bool-cases (j == l)) [
    | inl e ↦ if_true (any_read n w r (j + 1)) (
        any_write-true (get_num_instances w) 0 j k (omega arith) (omega (arith, lk))
          (subst (λ x. overlaps w r k x ≡ true) (sym ((==_iff j l).0 e)) h))
    | inr e ↦
        if_rest (any_write (get_num_instances w) w r 0 j)
          (any_read-true n (j + 1) k l lk (ground arith) (omega arith) h)
  ]

-- An access of an entry has the byte.
abbrev pub HasByte : MemSetEntry → (i b : ℕ) → Type 0
HasByte e i b =
    ((e.base + i * e.stride) % word ≤ b) × (b < (e.base + i * e.stride) % word + e.length)

-- The accesses have bytes, and none goes on behind the end of the address space.
pub record IsWithin (e : MemSetEntry) : Type 0 where
  pub some_bytes : 0 < e.length
  pub no_wrap : (i : ℕ) → i < get_num_instances e → (e.base + i * e.stride) % word + e.length ≤ word

upper_lem :
    (x len : ℕ)
    → 0 < len
    → x % word + len ≤ word
    → sub_word ((x + len) % word) 1 + 1 ≡ x % word + len
upper_lem x len pos le = ground (arith, pos, le)

module _ (w r : MemSetEntry) (i j : ℕ) (vw : IsWithin w) (vr : IsWithin r)
    (li : i < get_num_instances w) (lj : j < get_num_instances r) where
  overlaps-byte : overlaps w r i j ≡ true → (b : ℕ) × HasByte w i b × HasByte r j b
  overlaps-byte h =
      let a = (w.base + i * w.stride) % word in
      let c = (r.base + j * r.stride) % word in
      let pw = vw.some_bytes in
      let pr = vr.some_bytes in
      let uw = upper_lem (w.base + i * w.stride) w.length pw (vw.no_wrap i li) in
      let ur = upper_lem (r.base + j * r.stride) r.length pr (vr.no_wrap j lj) in
      let (x, y) : (a < c + r.length) × (c < a + w.length) =
        (ground (arith, h, ur), ground (arith, h, uw)) in
      elim (Bool-cases (leb a c)) [
        | inl p ↦ let q : a ≤ c = ground (arith, p) in (c, (q, y), (omega arith, omega (arith, pr)))
        | inr p ↦ let q : c ≤ a = ground (arith, p) in (a, (omega arith, omega (arith, pw)), (q, x))
      ]

  byte-overlaps : (b : ℕ) → HasByte w i b → HasByte r j b → overlaps w r i j ≡ true
  byte-overlaps b hw hr =
      let pw = vw.some_bytes in
      let pr = vr.some_bytes in
      let uw = upper_lem (w.base + i * w.stride) w.length pw (vw.no_wrap i li) in
      let ur = upper_lem (r.base + j * r.stride) r.length pr (vr.no_wrap j lj) in
      ground (arith, hw, hr, uw, ur)

-- For entries whose accesses have bytes and do not go on behind the end of the address space,
-- `isAliasBruteForce` says yes exactly when some byte is in an access of the one entry and in an access
-- of the other.
pub is_alias_brute_force_lem :
    (w r : MemSetEntry)
    → IsWithin w
    → IsWithin r
    → (is_alias_brute_force w r ≡ true) ↔ (
        (b : ℕ) × (i : ℕ) × (j : ℕ) × (i < get_num_instances w)
        × (j < get_num_instances r)
        × HasByte w i b
        × HasByte r j b)
unfolding is_alias_brute_force
is_alias_brute_force_lem w r vw vr = (
  λ h.
      let (i, j, li, lj, o) = any_read-found w r (get_num_instances r) 0 h in
      let lj' : j < get_num_instances r = omega (arith, lj) in
      let (b, x, y) = overlaps-byte w r i j vw vr li lj' o in (b, i, j, li, lj', x, y),
  λ (b, i, j, li, lj, x, y).
      any_read-true w r (get_num_instances r) 0 i j li (omega arith) (omega (arith, lj))
        (byte-overlaps w r i j vw vr li lj b x y),
)
