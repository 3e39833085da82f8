-- ===== src/Libcam/StaticLoop/Instances.antt =====
-- `buildInstructionInstanceLut`: the entries of an instruction after the loop over the ranges of iterations.
use cam_alias_checker.Prelude.{
  ℕ, ◌+◌, ◌-◌, ◌*◌, ◌<◌, ◌≡◌, refl, ap, sym, subst, ◌∙◌, none, some, List, [], ◌∷◌, ◌++◌,
  append_assoc, append-nil, length, length-append, get_elem?, arith,
}
use cam_alias_checker.Libcam.Machine.{word}
use cam_alias_checker.Libcam.CompressionPattern.Ordered.{IsCounts, count_at}
use cam_alias_checker.Libcam.Repetition.{Range}
use cam_alias_checker.Libcam.Repetition.Lookup.{IsLut}
use cam_alias_checker.Libcam.Repetition.Built.Each.{EachRange}
use cam_alias_checker.Libcam.StaticLoop.{
  IterationGroupCfc, InstanceLut, iterations_in, entries_at, add_range, build_instances,
}
use cam_alias_checker.Libcam.StaticLoop.Laps.{laps, length-laps}
use cam_alias_checker.Libcam.StaticLoop.Entries.{Tiles}
use cam_alias_checker.Libcam.StaticLoop.Ranges.{ArePositive, add_range-Tiles}

-- The group of the range has counts, and its iterations end below `top`.
pub record IsUsable (gs : List IterationGroupCfc) (top : ℕ) (x : Range ℕ) : Type 0 where
  pub ends_below : x.1 < top
  pub group : IterationGroupCfc
  pub group_at : get_elem? gs x.2 ≡ some group
  pub ordered : IsCounts 0 group.num_instances_lut
  pub positive : ArePositive group.num_instances_lut

-- how often a symbol comes in each iteration of the group at a place
abbrev pub count_in : ℕ → List IterationGroupCfc → ℕ → ℕ
count_in s gs i = elim (get_elem? gs i) [ none ↦ 0 | some g ↦ count_at s g.num_instances_lut ]

-- the iteration of every instance of a symbol, range by range
unfoldable pub owners : ℕ → List IterationGroupCfc → List (Range ℕ) → List ℕ
unfolding laps
owners s gs [] = []
owners s gs (x ∷ xs) = laps x.0 (x.1 + 1 - x.0) (count_in s gs x.2) ++ owners s gs xs

build_instances-step :
    (n : ℕ) (x : Range ℕ) (lut : List (Range ℕ)) (gs : List IterationGroupCfc)
    (g : IterationGroupCfc) (m m' m'' : InstanceLut)
    → get_elem? gs x.2 ≡ some g
    → iterations_in x.0 x.1 ≡ n
    → add_range n x.0 g.num_instances_lut m ≡ some m'
    → build_instances lut gs m' ≡ some m''
    → build_instances (x ∷ lut) gs m ≡ some m''
unfolding build_instances
build_instances-step n x lut gs g m m' m'' at iterations run run' =
    rw (at, iterations, run, run') refl

pub build_instances-Tiles :
    (s lo top : ℕ) (lut : List (Range ℕ)) (gs : List IterationGroupCfc) (m : InstanceLut)
    (xs : List ℕ)
    → top < word
    → IsLut lo lut
    → EachRange (IsUsable gs top) lut
    → length (xs ++ owners s gs lut) < word
    → Tiles 0 (entries_at s m) xs
    → (m' : InstanceLut) × (build_instances lut gs m ≡ some m')
      × Tiles 0 (entries_at s m') (xs ++ owners s gs lut)
unfolding build_instances owners
build_instances-Tiles s lo top [] gs m xs small v u total t =
    (m, refl, subst (Tiles 0 (entries_at s m)) (sym (append-nil xs)) t)
build_instances-Tiles s lo top (x ∷ lut) gs m xs small v u total t =
    let g = u.0.group in
    let c = g.num_instances_lut in
    let n = x.1 + 1 - x.0 in
    let start = x.0 in
    let le = v.1 in
    let below = u.0.ends_below in
    let ys = laps x.0 n (count_in s gs x.2) in
    let rest = owners s gs lut in
    let counted : count_in s gs x.2 ≡ count_at s c =
      (let at = u.0.group_at in rw (count_in, at) refl) in
    let whole = append_assoc xs ys rest in
    let total' : length ((xs ++ ys) ++ rest) < word =
      subst (λ z. length z < word) (sym whole) total in
    let len = length-append (xs ++ ys) rest in
    let len' = length-append xs ys in
    let len'' = length-laps x.0 n (count_in s gs x.2) ∙ ap (λ z. n * z) counted in
    let own : length xs + n * count_at s c < word = omega (arith, len, len', len'', total') in
    let iterations : iterations_in x.0 x.1 ≡ n = ground (arith, le, below, small) in
    let (m', run, t') =
      add_range-Tiles n x.0 0 s c m xs (omega (arith, le)) (omega (arith, le, below, small))
        u.0.ordered u.0.positive own t in
    let had : Tiles 0 (entries_at s m') (xs ++ ys) =
      subst (λ z. Tiles 0 (entries_at s m') (xs ++ laps x.0 n z)) (sym counted) t' in
    let (m'', run', t'') =
      build_instances-Tiles s (x.1 + 1) top lut gs m' (xs ++ ys) small v.2 u.1 total' had in
    let at = u.0.group_at in
    (
      m'',
      build_instances-step n x lut gs g m m' m'' at iterations run run',
      subst (Tiles 0 (entries_at s m'')) whole t'',
    )
