-- ===== src/Libcam/Dependence/Menu.antt =====
-- The pairs of instructions that `buildInstrPairMenu` gives to the analysis.
use cam_alias_checker.Prelude.{
  ℕ, ◌≡◌, refl, ap, ◌∙◌, Bool, true, false, ◌&&◌, ◌||◌, List, [], ◌∷◌, ◌++◌, ◌==◌, if◌then◌else◌,
  arith,
}
use cam_alias_checker.Libcam.Dependence.{
  contains, instruction_pair_is_in_instruction_trace, menu_row, rw_menu, ww_menu,
  build_instr_pair_menu,
}

abbrev pub has_pair : List (ℕ × ℕ) → ℕ → ℕ → Bool
has_pair [] a b = false
has_pair ((x, y) ∷ m) a b = (x == a && y == b) || has_pair m a b

has_pair-append :
    (m n : List (ℕ × ℕ)) (a b : ℕ) → has_pair (m ++ n) a b ≡ (has_pair m a b || has_pair n a b)
has_pair-append [] n a b = refl
has_pair-append ((x, y) ∷ m) n a b = ground (arith, has_pair-append m n a b)

has_pair-if :
    (c : Bool) (w r a b : ℕ)
    → has_pair (if c then (w, r) ∷ [] else []) a b ≡ (c && w == a && r == b)
has_pair-if true w r a b = ground arith
has_pair-if false w r a b = refl

cong_or : {a b c d : Bool} → a ≡ c → b ≡ d → (a || b) ≡ (c || d)
cong_or p q = rw (p, q)

either_order :
    (wa wb ca cb ta tb h k : Bool)
    → (h || k) ≡ (ca && cb && ta && tb)
    → ((wa && (wb || cb) && ta && tb || h) || (wb && (wa || ca) && tb && ta || k))
      ≡ ((wa || ca) && (wb || cb) && ta && tb)
either_order false false ca cb ta tb h k e = e
either_order false true ca cb ta tb h k e = ground (arith, e)
either_order true false ca cb ta tb h k e = ground (arith, e)
either_order true true ca cb ta tb h k e = ground (arith, e)

module _ (instrs subs : List ℕ) where
  -- whether an instruction is one of the loop or of a function that it calls
  abbrev pub in_trace : ℕ → Bool
  in_trace a = contains instrs a || contains subs a

  both_in_trace :
      (a b : ℕ)
      → instruction_pair_is_in_instruction_trace instrs subs a b ≡ (in_trace a && in_trace b)
  unfolding instruction_pair_is_in_instruction_trace
  both_in_trace a b = ground arith

  has_pair-menu_row :
      (w a b : ℕ) (rs : List ℕ)
      → has_pair (menu_row instrs subs w rs) a b
        ≡ (w == a && contains rs b && in_trace a && in_trace b)
  unfolding menu_row
  has_pair-menu_row w a b [] = ground arith
  has_pair-menu_row w a b (r ∷ rs) =
      let c = instruction_pair_is_in_instruction_trace instrs subs w r in
      has_pair-append (if c then (w, r) ∷ [] else []) (menu_row instrs subs w rs) a b
      ∙ ground (arith, has_pair-if c w r a b, both_in_trace w r, has_pair-menu_row w a b rs)

  has_pair-rw_menu :
      (a b : ℕ) (ws rs : List ℕ)
      → has_pair (rw_menu instrs subs ws rs) a b
        ≡ (contains ws a && contains rs b && in_trace a && in_trace b)
  unfolding rw_menu
  has_pair-rw_menu a b [] rs = refl
  has_pair-rw_menu a b (w ∷ ws) rs =
      has_pair-append (menu_row instrs subs w rs) (rw_menu instrs subs ws rs) a b
      ∙ ground (arith, has_pair-menu_row w a b rs, has_pair-rw_menu a b ws rs)

  has_pair-ww_menu :
      (a b : ℕ) (ws : List ℕ)
      → (has_pair (ww_menu instrs subs ws) a b || has_pair (ww_menu instrs subs ws) b a)
        ≡ (contains ws a && contains ws b && in_trace a && in_trace b)
  unfolding ww_menu
  has_pair-ww_menu a b [] = refl
  has_pair-ww_menu a b (w ∷ ws) =
      let row = menu_row instrs subs w (w ∷ ws) in
      let rest = ww_menu instrs subs ws in
      cong_or
        (has_pair-append row rest a b
          ∙ ap (λ x. x || has_pair rest a b) (has_pair-menu_row w a b (w ∷ ws)))
        (has_pair-append row rest b a
          ∙ ap (λ x. x || has_pair rest b a) (has_pair-menu_row w b a (w ∷ ws)))
      ∙ either_order (w == a) (w == b) (contains ws a) (contains ws b) (in_trace a) (in_trace b)
          (has_pair rest a b) (has_pair rest b a) (has_pair-ww_menu a b ws)

  -- The first menu has exactly the pairs of a write and a read, and the second has each pair of writes,
  -- in one order or the other, of instructions in the loop or in a function that it calls.
  pub has_pair-build_instr_pair_menu :
      (rs ws : List ℕ) (a b : ℕ)
      → let (rw_pairs, ww_pairs) = build_instr_pair_menu instrs subs rs ws in
        (has_pair rw_pairs a b ≡ (contains ws a && contains rs b && in_trace a && in_trace b))
        × ((has_pair ww_pairs a b || has_pair ww_pairs b a)
            ≡ (contains ws a && contains ws b && in_trace a && in_trace b))
  unfolding build_instr_pair_menu
  has_pair-build_instr_pair_menu rs ws a b = (has_pair-rw_menu a b ws rs, has_pair-ww_menu a b ws)
