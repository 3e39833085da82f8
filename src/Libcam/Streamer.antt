-- ===== src/Libcam/Streamer.antt =====
-- libcam/src/MemoryTraceStreamer.{h,cpp}: a memory trace that is read in chunks of as many instances
-- as are asked for; and the part of libcam/src/BZ2ParserState.cpp that calls the scanner. What
-- libbz2 reads is the argument: the numbers of each block, cut between two tokens.
pub mod Parse
pub mod Split
pub mod Pending
pub mod Chunks
pub mod Streams
mod Tests
use cam_alias_checker.Prelude.{
  ℕ, zero, suc, ◌+◌, ◌-◌, ◌%◌, Bool, true, false, not, ◌&&◌, ◌||◌, Option, none, some, List, [],
  ◌∷◌, ◌++◌, length, ltb, ◌==◌, if◌then◌else◌,
}
use cam_alias_checker.Libcam.Machine.{word, sub_word, Number}
use cam_alias_checker.Libcam.MemSet.{MemSetEntry, Uninit, MemSet, split_off_end}
use cam_alias_checker.Libcam.MemoryParser.{MemoryTraceLex, lex_number, new_lex}

-- `buffer` has what the scanner has left of an active block, `blocks` the blocks not read yet.
pub record Bz2ParserState : Type 0 where
  pub active_parser : Bool
  pub buffer : List Number
  pub blocks : List (List Number)

abbrev pub is_active : Bz2ParserState → Bool
is_active p = p.active_parser

pub record MemoryTraceStreamer : Type 0 where
  pub instr_id : ℕ
  pub remainder : MemSet
  pub mtl : MemoryTraceLex
  pub parser : Bz2ParserState
  pub write : Bool
  pub status : Bool

-- `c` is what the scanner's constructor leaves uninitialised.
abbrev pub new_streamer :
    (c : ℕ) (instr_id : ℕ) (file : List (List Number)) (write : Bool) → MemoryTraceStreamer
new_streamer c instr_id file write = record {
  instr_id = instr_id;
  remainder = [];
  mtl = new_lex c [] 0;
  parser = record { active_parser = false; buffer = []; blocks = file };
  write = write;
  status = true;
}

abbrev pub get_id : MemoryTraceStreamer → ℕ
get_id s = s.instr_id

abbrev pub is_write : MemoryTraceStreamer → Bool
is_write s = s.write

-- The end of the last of some entries, the first of them `e`.
unfoldable pub back_end : MemSetEntry → MemSet → ℕ
back_end e [] = e.end
back_end e (f ∷ es) = back_end f es

-- `back().getEnd()` of a set, which is not empty there
unfoldable pub end_of : MemSet → ℕ
unfolding back_end
end_of [] = 0
end_of (e ∷ es) = back_end e es

unfoldable pub get_num_buffered_instances : MemSet → ℕ
get_num_buffered_instances [] = 0
get_num_buffered_instances (e ∷ es) = (sub_word (back_end e es) e.start + 1) % word

-- The library's `lower_bound` for the ends of entries in order: the entries before the first one that
-- ends at `val` or later, and the others.
unfoldable pub lower_bound : MemSet → (val : ℕ) → MemSet × MemSet
lower_bound [] val = ([], [])
lower_bound (e ∷ es) val =
    let rest = lower_bound es val in if ltb e.end val then (e ∷ rest.0, rest.1) else ([], e ∷ es)

-- The rounds that the blocks still allow: each one reads a number or ends a block.
unfoldable pub block_rounds : List (List Number) → ℕ
block_rounds [] = 0
block_rounds (b ∷ bs) = 1 + length b + block_rounds bs

unfoldable pub parse_rounds : Bz2ParserState → ℕ
unfolding block_rounds
parse_rounds p = (if p.active_parser then 1 + length p.buffer else 0) + block_rounds p.blocks

module _ (u : Uninit) where
  -- The scanner on the numbers of a block: those that are left, and whether it returned before the
  -- end.
  unfoldable pub lex : List Number → MemoryTraceLex → List Number × MemoryTraceLex × Bool
  lex [] l = ([], l, false)
  lex (t ∷ ts) l =
      let r = lex_number u t l in let rest = lex ts r.0 in if r.1 then (ts, r.0, true) else rest

  -- The state after a block, and whether there can be more.
  unfoldable pub do_lexing :
      List Number → Bz2ParserState → MemoryTraceLex → Bz2ParserState × MemoryTraceLex × Bool
  unfolding lex
  do_lexing buf p l =
      let r = lex buf l in
      if r.2 then (record p { active_parser = true; buffer = r.0 }, r.1, true) else (
        record p { active_parser = false; buffer = [] },
        r.1,
        (if length p.blocks == 0 then false else true),
      )

  -- The branches of `parseBlock2`: an active block, nothing to read any more, and the next block.
  unfoldable pub lex_next :
      (active : Bool)
      → List (List Number)
      → Bz2ParserState
      → MemoryTraceLex
      → Bz2ParserState × MemoryTraceLex × Bool
  unfolding do_lexing
  lex_next true bs p l = do_lexing p.buffer p l
  lex_next false [] p l = do_lexing [] p l
  lex_next false (b ∷ bs) p l = do_lexing b (record p { blocks = bs }) l

  abbrev pub parse_block : Bz2ParserState → MemoryTraceLex → Bz2ParserState × MemoryTraceLex × Bool
  parse_block p l = lex_next p.active_parser p.blocks p l

  -- The loop of `getNextChunk`, for at most `fuel` rounds.
  unfoldable pub parse_until : (fuel num_instances : ℕ) → MemoryTraceStreamer → MemoryTraceStreamer
  unfolding lex_next get_num_buffered_instances
  parse_until zero n s = s
  parse_until (suc fuel) n s =
      let r = parse_block s.parser s.mtl in
      let rest = parse_until fuel n (record s { parser = r.0; mtl = r.1; status = r.2 }) in
      if ltb (get_num_buffered_instances s.mtl.memset) n && s.status then rest else s

  -- The straddling entry and the entries after it: what stays of them, and what is left over.
  unfoldable pub split_straddle : (last_instance : ℕ) → MemSet → MemSet × MemSet
  unfolding split_off_end
  split_straddle last [] = ([], [])
  split_straddle last (e ∷ es) =
      let s = split_off_end u (sub_word e.end last) e in
      if ltb last e.end then (s.0 ∷ [], s.1 ∷ es) else (e ∷ [], es)

  -- the chunk and the remainder
  unfoldable pub split_chunk : (last_instance : ℕ) → MemSet → MemSet × MemSet
  unfolding lower_bound split_straddle
  split_chunk last es =
      let b = lower_bound es last in let s = split_straddle last b.1 in (b.0 ++ s.0, s.1)

  -- `getNextChunk` once enough is parsed; `none` is a failed assertion.
  unfoldable pub finish_chunk :
      (num_instances : ℕ)
      → (allow_overshoot : Bool) → MemoryTraceStreamer
      → (read : MemSet) → Option (MemSet × MemoryTraceStreamer)
  unfolding split_chunk get_num_buffered_instances
  finish_chunk n allow s [] = some ([], s)
  finish_chunk n allow s (e ∷ es) =
      let c = split_chunk (sub_word ((e.start + n) % word) 1) (e ∷ es) in
      let l = record s.mtl { start_instance = (end_of c.0 + 1) % word } in
      if allow || get_num_buffered_instances c.0 == n
      then some (c.0, record s { remainder = c.1; mtl = l })
      else none

  unfoldable pub get_next_chunk :
      (num_instances : ℕ)
      → (allow_overshoot : Bool) → MemoryTraceStreamer
      → Option (MemSet × MemoryTraceStreamer)
  unfolding parse_until finish_chunk
  get_next_chunk n allow s =
      let l = record s.mtl { memset = s.remainder; num_instances_required = n } in
      let p = parse_until (parse_rounds s.parser + 1) n (record s { remainder = []; mtl = l }) in
      if n == 0 then some ([], s) else finish_chunk n allow p p.mtl.memset
