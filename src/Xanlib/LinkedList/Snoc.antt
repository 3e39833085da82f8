-- ===== src/Xanlib/LinkedList/Snoc.antt =====
-- The chain of the items of xanlib/src/xanlist.c with one item more at its end.
use cam_alias_checker.Prelude.{
  ℕ, ◌≡◌, ◌≢◌, refl, ◌∙◌, true, false, some, List, [], ◌∷◌, ◌++◌, arith, ◌==◌,
}
use cam_alias_checker.Xanlib.LinkedList.Memory.{Ptr, null, Item, item}
use cam_alias_checker.Xanlib.LinkedList.Shape.{
  Cell, Cells, has, has_ptr, last_ptr, IsChain, IsSpare,
}

pub has-snoc :
    (a p : Ptr) (x : ℕ) (xs : Cells) → has a xs ≡ false → a ≢ p → has a (xs ++ (p, x) ∷ []) ≡ false
has-snoc a p x [] out ne = ground (arith, ne)
has-snoc a p x ((f, w) ∷ ys) out ne =
    let rest : has a ys ≡ false = ground (arith, out) in
    let here : (a == f) ≡ false = ground (arith, out) in rw here (has-snoc a p x ys rest ne)

pub last_ptr-snoc : (q p : Ptr) (x : ℕ) (xs : Cells) → last_ptr q (xs ++ (p, x) ∷ []) ≡ p
last_ptr-snoc q p x [] = refl
last_ptr-snoc q p x ((f, w) ∷ ys) = last_ptr-snoc f p x ys

pub has-last_ptr : (f : Ptr) (w : ℕ) (ys : Cells) → has (last_ptr f ys) ((f, w) ∷ ys) ≡ true
has-last_ptr f w [] = ground arith
has-last_ptr f w ((g, v) ∷ zs) = ground (arith, has-last_ptr g v zs)

-- what stands at the end of a chain
pub last_held :
    (h : Cell) (q f : Ptr) (w : ℕ) (ys : Cells)
    → IsChain h q ((f, w) ∷ ys)
    → (j : Item) × (h (last_ptr f ys) ≡ some j) × (last_ptr f ys ≢ null)
last_held h q f w [] c = (item w null q, c.1, c.0)
last_held h q f w ((g, v) ∷ zs) c = last_held h f g v zs c.3

pub IsSpare-snoc :
    (h : Cell) (p : Ptr) (x : ℕ) (xs : Cells) (ps : List Ptr)
    → IsSpare h xs ps
    → has_ptr p ps ≡ false
    → IsSpare h (xs ++ (p, x) ∷ []) ps
IsSpare-snoc h p x xs [] s out = tt
IsSpare-snoc h p x xs (a ∷ ps) s out = (
  s.0,
  s.1,
  has-snoc a p x xs s.2 (ground (arith, out)),
  s.3,
  IsSpare-snoc h p x xs ps s.4 (ground (arith, out)),
)

-- A chain in which the last item leads to a new one.
pub IsChain-snoc :
    (h g : Cell) (p : Ptr) (x : ℕ) (q f : Ptr) (w : ℕ) (ys : Cells)
    → IsChain h q ((f, w) ∷ ys)
    → p ≢ null
    → has p ((f, w) ∷ ys) ≡ false
    → g p ≡ some (item x null (last_ptr f ys))
    → ((a : Ptr) → has a ((f, w) ∷ ys) ≡ true → a ≢ last_ptr f ys → g a ≡ h a)
    → ((j : Item) → h (last_ptr f ys) ≡ some j → g (last_ptr f ys) ≡ some (record j { next = p }))
    → IsChain g q ((f, w) ∷ (ys ++ (p, x) ∷ []))
IsChain-snoc h g p x q f w [] c ne out new same end = (
  c.0,
  end (item w null q) c.1,
  has-snoc f p x [] refl (ground (arith, out)),
  (ne, new, refl, tt),
)
IsChain-snoc h g p x q f w ((b, v) ∷ zs) c ne out new same end =
    let last = has-last_ptr b v zs in
    let rest : has p ((b, v) ∷ zs) ≡ false = ground (arith, out) in
    let fp : f ≢ p = ground (arith, out) in
    let fl : f ≢ last_ptr b zs = λ e. absurd (ground (arith, e, last, c.2)) in
    (
      c.0,
      same f (ground arith) fl ∙ c.1,
      has-snoc f p x ((b, v) ∷ zs) c.2 fp,
      IsChain-snoc h g p x f b v zs c.3 ne rest new (λ a e. same a (ground (arith, e))) end,
    )
