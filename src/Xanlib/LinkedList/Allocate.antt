-- ===== src/Xanlib/LinkedList/Allocate.antt =====
-- `internal_allocateItem` of xanlib/src/xanlist.c: an item for a list, new or from its buffer.
use cam_alias_checker.Prelude.{
  ◌≡◌, ◌≢◌, ◌≤◌, length, ap, inl, inr, refl, true, false, Option, none, some, List, [], ◌∷◌, arith,
  ◌⊎◌,
}
use cam_alias_checker.Xanlib.LinkedList.Memory.{Ptr, null, Item, Memory, write, alloc}
use cam_alias_checker.Xanlib.LinkedList.Items.{XanList, buffered, allocate_item}
use cam_alias_checker.Xanlib.LinkedList.Shape.{
  Cells, has, has_ptr, IsSpare, IsFresh, IsList, in_use, IsChain-write, IsSpare-write,
  IsFresh-write, not_spare, not_in_chain,
}

-- There is an item in the buffer, or memory for one.
abbrev pub CanAllocate : Memory → XanList → Type 0
CanAllocate m l = (buffered l ≢ []) ⊎ (m.supply ≢ [])

-- There is a buffer, or memory for one.
abbrev pub CanFree : Memory → XanList → Type 0
CanFree m l = (l.buffer ≢ none) ⊎ (m.supply ≢ [])

-- There is room to take an item and then to free one: a buffer, and in it an item or memory for one, or
-- memory for an item and for a buffer.
abbrev pub CanCycle : Memory → XanList → Type 0
CanCycle m l = (CanAllocate m l × (l.buffer ≢ none)) ⊎ (2 ≤ length m.supply)

pub CanCycle-CanAllocate : (m : Memory) (l : XanList) → CanCycle m l → CanAllocate m l
CanCycle-CanAllocate m l (inl c) = c.0
CanCycle-CanAllocate m l (inr h) = inr (λ e. let f = ap length e in absurd (omega (arith, f, h)))

-- What `internal_allocateItem` gives for a list: an item in use that is not part of it.
pub record Allocated (xs : Cells) (m : Memory) (l : XanList) (p : Ptr) (m' : Memory) (l' : XanList)
    : Type 0 where
  pub list : IsList m' l' xs
  pub not_null : p ≢ null
  pub old : Item
  pub holds : m'.cell p ≡ some old
  pub out : has p xs ≡ false
  pub not_buffered : has_ptr p (buffered l') ≡ false
  pub same_len : l'.len ≡ l.len
  pub same_first : l'.first_item ≡ l.first_item
  pub same_last : l'.last_item ≡ l.last_item
  pub room : CanCycle m l → CanFree m' l'

-- an item of the buffer
abbrev take_buffered : XanList → List Ptr → XanList
take_buffered l ps = record l { buffer = some ps }

abbrev grown : Memory → Ptr → List Ptr → Item → Memory
grown m p ps i = record m { cell = write p (some i) m.cell; supply = ps }

left_room :
    (m : Memory) (l : XanList) (p : Ptr) (ps : List Ptr)
    → m.supply ≡ p ∷ ps
    → CanCycle m l
    → (l.buffer ≢ none) ⊎ (ps ≢ [])
left_room m l p ps e (inl c) = inl c.1
left_room m l p ps e (inr h) =
    inr (λ n. let f = ap length e in let g = ap length n in absurd (omega (arith, f, g, h)))

-- a new item
alloc-Allocated :
    (uninit : Item) (m : Memory) (l : XanList) (xs : Cells) (p : Ptr) (ps : List Ptr)
    → IsList m l xs
    → m.supply ≡ p ∷ ps
    → Allocated xs m l p (grown m p ps uninit) l
alloc-Allocated uninit m l xs p ps v e =
    let f : IsFresh m.cell (p ∷ ps) = rw e at v.fresh in
    let out = not_in_chain m.cell p null xs v.chain f.1 in
    record {
      list = record {
        chain = IsChain-write m.cell p (some uninit) null xs v.chain out;
        first = v.first;
        last = v.last;
        len = v.len;
        spare = IsSpare-write m.cell p uninit xs (buffered l) v.spare;
        fresh = IsFresh-write m.cell p (some uninit) ps f.3 f.2;
      };
      not_null = f.0;
      old = uninit;
      holds = ground arith;
      out = out;
      not_buffered = not_spare m.cell p xs (buffered l) v.spare f.1;
      same_len = refl;
      same_first = refl;
      same_last = refl;
      room = λ c. left_room m l p ps e c;
    }

item_of : (o : Option Item) → in_use o ≡ true → (i : Item) × (o ≡ some i)
item_of none e = cc
item_of (some i) e = (i, refl)

buffer-Allocated :
    (m : Memory) (l : XanList) (xs : Cells) (p : Ptr) (ps : List Ptr)
    → IsList m l xs
    → buffered l ≡ p ∷ ps
    → Allocated xs m l p m (take_buffered l ps)
buffer-Allocated m l xs p ps v e =
    let s : IsSpare m.cell xs (p ∷ ps) = rw e at v.spare in
    let (i, held) = item_of (m.cell p) s.1 in
    record {
      list = record {
        chain = v.chain;
        first = v.first;
        last = v.last;
        len = v.len;
        spare = s.4;
        fresh = v.fresh;
      };
      not_null = s.0;
      old = i;
      holds = held;
      out = s.2;
      not_buffered = s.3;
      same_len = refl;
      same_first = refl;
      same_last = refl;
      room = λ c. inl (λ n. absurd (ground (arith, n)));
    }

-- the run of `internal_allocateItem`, from the two fields that it reads
pub allocates :
    (uninit : Item) (m : Memory) (l : XanList) (xs : Cells) (b : Option (List Ptr)) (ps : List Ptr)
    → l.buffer ≡ b
    → m.supply ≡ ps
    → IsList m l xs
    → CanAllocate m l
    → (p : Ptr) × (m' : Memory) × (l' : XanList) × (allocate_item uninit l m ≡ some ((p, l'), m'))
      × Allocated xs m l p m' l'
unfolding allocate_item
allocates uninit m l xs (some (p ∷ ps)) fs eb ef v c =
    let a = buffer-Allocated m l xs p ps v (ground arith) in
    (p, m, take_buffered l ps, rw eb (ground (arith, a.not_null)), a)
allocates uninit m l xs (some []) (p ∷ ps) eb ef v c =
    (p, grown m p ps uninit, l, rw (eb, alloc) (rw ef), alloc-Allocated uninit m l xs p ps v ef)
allocates uninit m l xs none (p ∷ ps) eb ef v c =
    (p, grown m p ps uninit, l, rw (eb, alloc) (rw ef), alloc-Allocated uninit m l xs p ps v ef)
allocates uninit m l xs (some []) [] eb ef v c = absurd (ground arith)
allocates uninit m l xs none [] eb ef v c = absurd (ground arith)
