-- ===== src/Libcam/MemSet/Contiguous.antt =====
-- Entries that number their instances without a gap.
use cam_alias_checker.Prelude.{
  ℕ, ◌+◌, ◌-◌, ◌≤◌, ◌≡◌, refl, ap, sym, subst, ◌∙◌, [], ◌∷◌, ◌++◌, append_assoc, arith, length,
  length-append,
}
use cam_alias_checker.Libcam.MemSet.{MemSet}
use cam_alias_checker.Libcam.MemSet.Entry.{entry_accesses, accesses, length-entry_accesses, IsEntry}

-- instances `a` to below `b`
abbrev pub IsContiguous : ℕ → ℕ → MemSet → Type 0
IsContiguous a b [] = a ≡ b
IsContiguous a b (e ∷ es) = (e.start ≡ a) × IsEntry e × IsContiguous (e.end + 1) b es

pub accesses-append : (es fs : MemSet) → accesses (es ++ fs) ≡ accesses es ++ accesses fs
unfolding accesses
accesses-append [] fs = refl
accesses-append (e ∷ es) fs =
    ap (λ a. entry_accesses e ++ a) (accesses-append es fs)
    ∙ sym (append_assoc (entry_accesses e) (accesses es) (accesses fs))

pub IsContiguous-append :
    (a b c : ℕ) (es fs : MemSet)
    → IsContiguous a b es
    → IsContiguous b c fs
    → IsContiguous a c (es ++ fs)
IsContiguous-append a b c [] fs v w = subst (λ k. IsContiguous k c fs) (sym v) w
IsContiguous-append a b c (e ∷ es) fs v w =
    (v.0, v.1, IsContiguous-append (e.end + 1) b c es fs v.2 w)

pub IsContiguous-le : (a b : ℕ) (es : MemSet) → IsContiguous a b es → a ≤ b
IsContiguous-le a b [] v = omega (arith, v)
IsContiguous-le a b (e ∷ es) v =
    omega (arith, v.0, v.1.ordered, IsContiguous-le (e.end + 1) b es v.2)

pub length-accesses : (a b : ℕ) (es : MemSet) → IsContiguous a b es → length (accesses es) ≡ b - a
unfolding accesses
length-accesses a b [] v = omega (arith, v)
length-accesses a b (e ∷ es) v = omega (
  arith,
  length-append (entry_accesses e) (accesses es),
  length-entry_accesses e,
  length-accesses (e.end + 1) b es v.2,
  v.0,
  v.1.ordered,
  IsContiguous-le (e.end + 1) b es v.2,
)
