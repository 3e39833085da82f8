-- ===== src/Libcam/Streamer/Parse.antt =====
-- The parsing of blocks until enough is read loses no number of the file, and it ends.
use cam_alias_checker.Prelude.{
  ℕ, zero, suc, ◌+◌, ◌≤◌, ◌<◌, ◌≡◌, refl, ap, sym, subst, ◌∙◌, Bool, true, false, List, [], ◌∷◌,
  ◌++◌, arith, Bool-cases, inl, inr, ◌⊎◌, length, ltb, if◌then◌else◌, ◌&&◌, ◌==◌,
}
use cam_alias_checker.Libcam.Machine.{Number}
use cam_alias_checker.Libcam.MemSet.{Uninit}
use cam_alias_checker.Libcam.MemoryParser.{MemoryTraceLex, lex_number}
use cam_alias_checker.Libcam.MemoryParser.Feed.{feed}
use cam_alias_checker.Libcam.Streamer.{
  Bz2ParserState, MemoryTraceStreamer, get_num_buffered_instances, lex, do_lexing, lex_next,
  parse_block, parse_until, parse_rounds, block_rounds,
}

unfoldable pub joined : List (List Number) → List Number
joined [] = []
joined (b ∷ bs) = b ++ joined bs

-- the numbers of the file that the scanner has not seen
unfoldable pub unread : Bz2ParserState → List Number
unfolding joined
unread p = (if p.active_parser then p.buffer else []) ++ joined p.blocks

abbrev Lexed : Type 0
Lexed = List Number × MemoryTraceLex × Bool

abbrev Step : Type 0
Step = Bz2ParserState × MemoryTraceLex × Bool

module _ (u : Uninit) where
  -- What the scanner leaves of a block: `ns` and `l` before, and `r` after.
  record IsLexed (ns : List Number) (l : MemoryTraceLex) (r : Lexed) : Type 0 where
    same : (more : List Number) → feed u r.1 (r.0 ++ more) ≡ feed u l (ns ++ more)
    paused : r.2 ≡ true → length r.0 < length ns
    ended : r.2 ≡ false → r.0 ≡ []

  lex-IsLexed : (ns : List Number) (l : MemoryTraceLex) → IsLexed ns l (lex u ns l)
  unfolding lex feed
  lex-IsLexed [] l = record {
    same = λ more. refl;
    paused = λ p. absurd (ground (arith, p));
    ended = λ p. refl;
  }
  lex-IsLexed (t ∷ ts) l =
      let r = lex-IsLexed ts (lex_number u t l).0 in
      elim (Bool-cases (lex_number u t l).1) [
        | inl p ↦ rw p record {
          same = λ more. refl;
          paused = λ q. omega arith;
          ended = λ q. absurd (ground (arith, q));
        }
        | inr p ↦
            rw p record { same = r.same; paused = λ q. omega (arith, r.paused q); ended = r.ended }
      ]

  -- A call of the scanner, or of the parser, keeps the rest of the trace, and makes progress if there
  -- can be more.
  pub record IsStep (p : Bz2ParserState) (l : MemoryTraceLex) (r : Step) : Type 0 where
    pub same : feed u r.1 (unread r.0) ≡ feed u l (unread p)
    pub closed : r.2 ≡ false → unread r.0 ≡ []
    pub progress : r.2 ≡ true → parse_rounds r.0 < parse_rounds p

  no_blocks :
      (bs : List (List Number)) → (if length bs == 0 then false else true) ≡ false → joined bs ≡ []
  unfolding joined
  no_blocks [] p = refl
  no_blocks (b ∷ bs) p = absurd (ground (arith, p))

  some_blocks :
      (bs : List (List Number))
      → (if length bs == 0 then false else true) ≡ true
      → 0 < block_rounds bs
  unfolding block_rounds
  some_blocks [] p = absurd (ground (arith, p))
  some_blocks (b ∷ bs) p = omega arith

  -- The scanner on a block `ns`, with the blocks of `p` after it: a step from any state `q` that has
  -- these numbers in front of it.
  do_lexing-IsStep :
      (ns : List Number) (p q : Bz2ParserState) (l : MemoryTraceLex)
      → unread q ≡ ns ++ joined p.blocks
      → (0 < length ns + block_rounds p.blocks → length ns + block_rounds p.blocks < parse_rounds q)
      → IsStep q l (do_lexing u ns p l)
  unfolding do_lexing unread parse_rounds
  do_lexing-IsStep ns p q l e lt =
      let r = lex-IsLexed ns l in
      elim (Bool-cases (lex u ns l).2) [
        | inl s ↦ rw s record {
          same = r.same (joined p.blocks) ∙ ap (feed u l) (sym e);
          closed = λ c. absurd (ground (arith, c));
          progress = λ c. (let k = lt (omega (arith, r.paused s)) in omega (arith, r.paused s, k));
        }
        | inr s ↦ rw s record {
          same =
              sym (ap (λ z. feed u (lex u ns l).1 (z ++ joined p.blocks)) (r.ended s))
              ∙ r.same (joined p.blocks)
              ∙ ap (feed u l) (sym e);
          closed = no_blocks p.blocks;
          progress = λ c. (let k = lt (omega (arith, some_blocks p.blocks c)) in omega (arith, k));
        }
      ]

  lex_next-IsStep :
      (a : Bool) (bs : List (List Number)) (p : Bz2ParserState) (l : MemoryTraceLex)
      → p.active_parser ≡ a
      → p.blocks ≡ bs
      → IsStep p l (lex_next u a bs p l)
  unfolding lex_next unread parse_rounds block_rounds joined
  lex_next-IsStep true bs p l a b =
      do_lexing-IsStep p.buffer p p l (rw a refl) (λ k. rw a (omega arith))
  lex_next-IsStep false [] p l a b = do_lexing-IsStep [] p p l (rw a refl) (λ k.
      let z = subst (λ bs. 0 < length {A = Number} [] + block_rounds bs) b k in
      absurd (omega (arith, z)))
  lex_next-IsStep false (c ∷ cs) p l a b =
      do_lexing-IsStep c (record p { blocks = cs }) p l (rw (a, b) refl)
        (λ k. rw (a, b) (omega arith))

  -- What a run of the loop keeps.
  pub record IsParsed (s t : MemoryTraceStreamer) : Type 0 where
    pub same : feed u t.mtl (unread t.parser) ≡ feed u s.mtl (unread s.parser)
    pub closed : t.status ≡ false → unread t.parser ≡ []
    pub remainder : t.remainder ≡ s.remainder

  pub parse_until-IsParsed :
      (fuel n : ℕ) (s : MemoryTraceStreamer)
      → (s.status ≡ false → unread s.parser ≡ [])
      → IsParsed s (parse_until u fuel n s)
  unfolding parse_until
  parse_until-IsParsed zero n s c = record { same = refl; closed = c; remainder = refl }
  parse_until-IsParsed (suc fuel) n s c =
      let r = parse_block u s.parser s.mtl in
      let step = lex_next-IsStep s.parser.active_parser s.parser.blocks s.parser s.mtl refl refl in
      let rest =
        parse_until-IsParsed fuel n (record s { parser = r.0; mtl = r.1; status = r.2 })
          step.closed in
      elim (Bool-cases (ltb (get_num_buffered_instances s.mtl.memset) n && s.status)) [
        | inl p ↦ rw p record {
          same = rest.same ∙ step.same;
          closed = rest.closed;
          remainder = rest.remainder;
        }
        | inr p ↦ rw p record { same = refl; closed = c; remainder = refl }
      ]

  parse_until-closed :
      (fuel n : ℕ) (s : MemoryTraceStreamer) → s.status ≡ false → parse_until u fuel n s ≡ s
  unfolding parse_until
  parse_until-closed zero n s c = refl
  parse_until-closed (suc fuel) n s c =
      elim (Bool-cases (ltb (get_num_buffered_instances s.mtl.memset) n)) [
        | inl p ↦ rw (p, c) refl
        | inr p ↦ rw p refl
      ]

  -- The rounds are enough: the loop ends with the instances that are asked for, or at the end.
  pub parse_until-enough :
      (fuel n : ℕ) (s : MemoryTraceStreamer)
      → (s.status ≡ false → unread s.parser ≡ [])
      → parse_rounds s.parser < fuel
      → (n ≤ get_num_buffered_instances (parse_until u fuel n s).mtl.memset)
        ⊎ (unread (parse_until u fuel n s).parser ≡ [])
  unfolding parse_until
  parse_until-enough zero n s c lt = absurd (omega (arith, lt))
  parse_until-enough (suc fuel) n s c lt =
      let r = parse_block u s.parser s.mtl in
      let step = lex_next-IsStep s.parser.active_parser s.parser.blocks s.parser s.mtl refl refl in
      let next = record s { parser = r.0; mtl = r.1; status = r.2 } in
      elim (Bool-cases (ltb (get_num_buffered_instances s.mtl.memset) n)) [
        | inr p ↦ rw p (inl (ground arith))
        | inl p ↦ elim (Bool-cases s.status) [
          | inr q ↦ rw (p, q) (inr (c q))
          | inl q ↦
              rw (p, q)
                (elim (Bool-cases r.2) [
                  | inl m ↦
                      parse_until-enough fuel n next step.closed
                        (omega (arith, step.progress m, lt))
                  | inr m ↦ rw (parse_until-closed fuel n next m) (inr (step.closed m))
                ])
        ]
      ]
