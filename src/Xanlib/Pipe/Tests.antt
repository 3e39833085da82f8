-- ===== src/Xanlib/Pipe/Tests.antt =====
-- The theorems on pipes at a pipe with one pointer.
use cam_alias_checker.Prelude.{
  Bool, true, false, ◌≡◌, refl, Option, none, some, [], ◌∷◌, arith, inr,
}
use cam_alias_checker.Xanlib.LinkedList.Memory.{null, Item, item, Memory, ◌>>=◌, write}
use cam_alias_checker.Xanlib.LinkedList.Shape.{IsList}
use cam_alias_checker.Xanlib.Pipe.{XanPipe}
use cam_alias_checker.Xanlib.Pipe.Fifo.{IsPipe, sync_get-sync_put}
use cam_alias_checker.Xanlib.Pipe.Sync.{sync_put, sync_get}

-- what a new item holds
abbrev garbage : Item
garbage = item 99 98 97

-- one item at address 1 that holds 7, and memory for two more
abbrev memory : Memory
memory = record { cell = write 1 (some (item 7 null null)) (λ _. none); supply = 2 ∷ 3 ∷ [] }

abbrev pipe : XanPipe
pipe = record {
  items = record {
    len = 1;
    buffer = none;
    buffer_size = 0;
    first_item = 1;
    last_item = 1;
    clone = none;
  };
}

pipe-IsList : IsList memory pipe.items ((1, 7) ∷ [])
pipe-IsList = record {
  chain = (ground arith, refl, refl, tt);
  first = refl;
  last = refl;
  len = refl;
  spare = tt;
  fresh = (ground arith, refl, refl, (ground arith, refl, refl, tt));
}

pipe-IsPipe : IsPipe memory pipe (7 ∷ [])
pipe-IsPipe = record { cells = (1, 7) ∷ []; list = pipe-IsList; holds = refl }

-- a mutex that is held or not
abbrev take_mutex : Bool → Option Bool
take_mutex true = none
take_mutex false = some true

abbrev give_mutex : Bool → Option Bool
give_mutex true = some false
give_mutex false = none

sync_get-sync_put_example :
    (m' : Memory) × (s' : XanPipe) × ((sync_put take_mutex give_mutex garbage pipe 5 false
          >>= (λ r. sync_get take_mutex give_mutex r.0.1 r.1))
        memory
      ≡ some (((7, s'), false), m'))
    × IsPipe m' s' (5 ∷ [])
sync_get-sync_put_example =
    sync_get-sync_put take_mutex give_mutex false true refl refl garbage memory pipe (7 ∷ []) 5 7
      (5 ∷ []) pipe-IsPipe (inr (omega arith)) refl
