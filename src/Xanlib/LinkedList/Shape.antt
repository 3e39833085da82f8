-- ===== src/Xanlib/LinkedList/Shape.antt =====
-- What a linked list in memory looks like: the chain of its items in both directions, its buffer of
-- free items, and the pointers that the allocation function will return.
use cam_alias_checker.Prelude.{
  ℕ, ◌≡◌, ◌≢◌, refl, Bool, true, false, ◌||◌, Option, none, some, List, [], ◌∷◌, arith, ◌==◌,
  length, Bool-cases, inl, inr, ==_iff, ◌∙◌,
}
use cam_alias_checker.Xanlib.LinkedList.Memory.{Ptr, null, Item, item, Memory, write}
use cam_alias_checker.Xanlib.LinkedList.Items.{XanList, buffered}

-- the items of a list in order: the address of each and the pointer that it holds
abbrev pub Cells : Type 0
Cells = List (Ptr × ℕ)

abbrev pub has : Ptr → Cells → Bool
has a [] = false
has a ((p, v) ∷ xs) = (a == p) || has a xs

abbrev pub has_ptr : Ptr → List Ptr → Bool
has_ptr a [] = false
has_ptr a (p ∷ ps) = (a == p) || has_ptr a ps

abbrev pub head_ptr : Cells → Ptr
head_ptr [] = null
head_ptr ((p, v) ∷ xs) = p

-- the last address, or `q` before an empty chain
abbrev pub last_ptr : Ptr → Cells → Ptr
last_ptr q [] = q
last_ptr q ((p, v) ∷ xs) = last_ptr p xs

abbrev pub Cell : Type 0
Cell = Ptr → Option Item

-- The chain `xs` of different items, behind an item `q`: `next` leads forward to NULL and `prev`
-- leads back to `q`.
abbrev pub IsChain : Cell → Ptr → Cells → Type 0
IsChain h q [] = Unit
IsChain h q ((p, v) ∷ xs) =
    (p ≢ null) × (h p ≡ some (item v (head_ptr xs) q)) × (has p xs ≡ false) × IsChain h p xs

abbrev pub in_use : Option Item → Bool
in_use none = false
in_use (some i) = true

-- The buffered items are in use, different, and no items of the list.
abbrev pub IsSpare : Cell → Cells → List Ptr → Type 0
IsSpare h xs [] = Unit
IsSpare h xs (p ∷ ps) =
    (p ≢ null)
    × (in_use (h p) ≡ true)
    × (has p xs ≡ false)
    × (has_ptr p ps ≡ false)
    × IsSpare h xs ps

-- The allocation function returns different pointers that are not in use.
abbrev pub IsFresh : Cell → List Ptr → Type 0
IsFresh h [] = Unit
IsFresh h (p ∷ ps) = (p ≢ null) × (h p ≡ none) × (has_ptr p ps ≡ false) × IsFresh h ps

pub record IsList (m : Memory) (l : XanList) (xs : Cells) : Type 0 where
  pub chain : IsChain m.cell null xs
  pub first : l.first_item ≡ head_ptr xs
  pub last : l.last_item ≡ last_ptr null xs
  pub len : l.len ≡ length xs
  pub spare : IsSpare m.cell xs (buffered l)
  pub fresh : IsFresh m.cell m.supply

module _ (h : Cell) where
  pub IsChain-frame :
      (g : Cell) (q : Ptr) (xs : Cells)
      → IsChain h q xs
      → ((a : Ptr) → has a xs ≡ true → g a ≡ h a)
      → IsChain g q xs
  IsChain-frame g q [] c same = tt
  IsChain-frame g q ((p, v) ∷ xs) c same = (
    c.0,
    same p (ground arith) ∙ c.1,
    c.2,
    IsChain-frame g p xs c.3 (λ a e. same a (ground arith)),
  )

  pub IsChain-write :
      (p : Ptr) (o : Option Item) (q : Ptr) (xs : Cells)
      → IsChain h q xs
      → has p xs ≡ false
      → IsChain (write p o h) q xs
  IsChain-write p o q xs c out = IsChain-frame (write p o h) q xs c (λ a e. write_other a e)
    where
      write_other : (a : Ptr) → has a xs ≡ true → write p o h a ≡ h a
      write_other a e = elim (Bool-cases (p == a)) [
        | inl eq ↦ cc (out, e, (==_iff p a).0 eq)
        | inr ne ↦ rw ne
      ]

  pub IsSpare-write :
      (p : Ptr) (i : Item) (xs : Cells) (ps : List Ptr)
      → IsSpare h xs ps
      → IsSpare (write p (some i) h) xs ps
  IsSpare-write p i xs [] s = tt
  IsSpare-write p i xs (a ∷ ps) s = (s.0, ground arith, s.2, s.3, IsSpare-write p i xs ps s.4)

  pub IsSpare-cons :
      (p : Ptr) (v : ℕ) (xs : Cells) (ps : List Ptr)
      → IsSpare h xs ps
      → has_ptr p ps ≡ false
      → IsSpare h ((p, v) ∷ xs) ps
  IsSpare-cons p v xs [] s out = tt
  IsSpare-cons p v xs (a ∷ ps) s out =
      (s.0, s.1, ground arith, s.3, IsSpare-cons p v xs ps s.4 (ground arith))

  pub IsFresh-write :
      (p : Ptr) (o : Option Item) (ps : List Ptr)
      → IsFresh h ps
      → has_ptr p ps ≡ false
      → IsFresh (write p o h) ps
  IsFresh-write p o [] f out = tt
  IsFresh-write p o (a ∷ ps) f out =
      (f.0, ground arith, f.2, IsFresh-write p o ps f.3 (ground arith))

  -- An item in use is not fresh.
  pub not_fresh :
      (p : Ptr) (ps : List Ptr) → IsFresh h ps → in_use (h p) ≡ true → has_ptr p ps ≡ false
  not_fresh p [] f u = refl
  not_fresh p (a ∷ ps) f u = ground (arith, not_fresh p ps f.3 u)

  pub not_spare :
      (p : Ptr) (xs : Cells) (ps : List Ptr) → IsSpare h xs ps → h p ≡ none → has_ptr p ps ≡ false
  not_spare p xs [] s u = refl
  not_spare p xs (a ∷ ps) s u = ground (arith, not_spare p xs ps s.4 u)

  pub not_in_chain : (p q : Ptr) (xs : Cells) → IsChain h q xs → h p ≡ none → has p xs ≡ false
  not_in_chain p q [] c u = refl
  not_in_chain p q ((a, v) ∷ xs) c u = ground (arith, not_in_chain p a xs c.3 u)

  pub IsSpare-write_other :
      (p : Ptr) (o : Option Item) (xs : Cells) (ps : List Ptr)
      → IsSpare h xs ps
      → has_ptr p ps ≡ false
      → IsSpare (write p o h) xs ps
  IsSpare-write_other p o xs [] s out = tt
  IsSpare-write_other p o xs (a ∷ ps) s out =
      (s.0, ground arith, s.2, s.3, IsSpare-write_other p o xs ps s.4 (ground arith))

  pub IsSpare-tail :
      (p : Ptr) (v : ℕ) (xs : Cells) (ps : List Ptr)
      → IsSpare h ((p, v) ∷ xs) ps
      → IsSpare h xs ps × (has_ptr p ps ≡ false)
  IsSpare-tail p v xs [] s = (tt, refl)
  IsSpare-tail p v xs (a ∷ ps) s =
      let ih = IsSpare-tail p v xs ps s.4 in
      ((s.0, s.1, ground arith, s.3, ih.0), ground (arith, ih.1))
