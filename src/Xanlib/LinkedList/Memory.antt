-- ===== src/Xanlib/LinkedList/Memory.antt =====
-- The memory that the list items of xanlib/src/xanlist.c live in, and commands on it.
use cam_alias_checker.Prelude.{
  ℕ, Bool, true, false, Option, none, some, List, [], ◌∷◌, ◌==◌, if◌then◌else◌,
}

abbrev pub Ptr : Type 0
Ptr = ℕ

abbrev pub null : Ptr
null = 0

-- `struct XanListItem`; `data` is a pointer that the list only copies and compares.
pub record Item : Type 0 where
  pub value : ℕ
  pub next : Ptr
  pub prev : Ptr

abbrev pub item : ℕ → Ptr → Ptr → Item
item v n p = record { value = v; next = n; prev = p }

-- The items in use, and the pointers that the allocation function of the list will return.
pub record Memory : Type 0 where
  pub cell : Ptr → Option Item
  pub supply : List Ptr

-- `none` is a run with no result: a failed assertion, `abort()`, an access through a pointer to no
-- item, an allocation that fails, or a loop that is out of fuel.
abbrev pub Cmd : Type 0 → Type 0
Cmd A = Memory → Option (A × Memory)

infixl 5 ◌>>=◌ ◌>>◌
abbrev pub ◌>>=◌ : {A B : Type 0} → Cmd A → (A → Cmd B) → Cmd B
◌>>=◌ c f m = elim (c m) [ none ↦ none | some (a, m') ↦ f a m' ]

abbrev pub ◌>>◌ : {A B : Type 0} → Cmd A → Cmd B → Cmd B
◌>>◌ c d m = elim (c m) [ none ↦ none | some (a, m') ↦ d m' ]

abbrev pub pure : {A : Type 0} → A → Cmd A
pure a m = some (a, m)

abbrev pub fail : {A : Type 0} → Cmd A
fail m = none

-- `assert`
abbrev pub check : Bool → Cmd (Unit {0})
check true m = some (tt, m)
check false m = none

abbrev pub write : Ptr → Option Item → (Ptr → Option Item) → Ptr → Option Item
write p c h q = if p == q then c else h q

unfoldable pub load : Ptr → Cmd Item
load p m = elim (m.cell p) [ none ↦ none | some i ↦ some (i, m) ]

-- a write to an item that is in use
unfoldable pub store : Ptr → Item → Cmd (Unit {0})
store p i m = elim (m.cell p) [
  | none ↦ none
  | some _ ↦ some (tt, record m { cell = write p (some i) m.cell })
]

unfoldable pub set_next : Ptr → Ptr → Cmd (Unit {0})
unfolding load store
set_next p q = do i ← load p; store p (record i { next = q })

unfoldable pub set_prev : Ptr → Ptr → Cmd (Unit {0})
unfolding load store
set_prev p q = do i ← load p; store p (record i { prev = q })

-- The allocation function. The new item holds what `uninit` says.
unfoldable pub alloc : (uninit : Item) → Cmd Ptr
alloc uninit m = elim m.supply [
  | [] ↦ none
  | p ∷ ps ↦ some (p, record m { cell = write p (some uninit) m.cell; supply = ps })
]

-- The allocation function for memory that holds no item. The pointer is not null, or the run has no result.
unfoldable pub alloc_array : Cmd Ptr
alloc_array m = elim m.supply [ [] ↦ none | p ∷ ps ↦ some (p, record m { supply = ps }) ]

-- The free function, on an item in use.
unfoldable pub free : Ptr → Cmd (Unit {0})
free p m = elim (m.cell p) [
  | none ↦ none
  | some _ ↦ some (tt, record m { cell = write p none m.cell })
]
