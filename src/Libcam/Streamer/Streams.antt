-- ===== src/Libcam/Streamer/Streams.antt =====
-- A trace that is read in several chunks, and the traces that the tracer leaves.
use cam_alias_checker.Prelude.{
  ℕ, ◌^◌, ◌+◌, ◌≤◌, ◌<◌, ◌≡◌, refl, ap, sym, subst, ◌∙◌, Bool, false, List, [], ◌∷◌, ◌++◌, arith,
  Option, some, length, take, drop, take-add, drop-add, take-length, ◌>>=◌,
}
use cam_alias_checker.Libcam.Machine.{word, Number}
use cam_alias_checker.Libcam.MemSet.{Uninit, MemSet}
use cam_alias_checker.Libcam.MemSet.Entry.{accesses}
use cam_alias_checker.Libcam.MemSet.Contiguous.{
  IsContiguous, IsContiguous-append, accesses-append, length-accesses,
}
use cam_alias_checker.Libcam.MemoryTracer.{Event, cam_mem_all, memory_trace_shutdown}
use cam_alias_checker.Libcam.MemoryParser.Traced.{scanned}
use cam_alias_checker.Libcam.Runs.{all_reads, all_writes, AllPossible}
use cam_alias_checker.Libcam.RoundTrip.{memory_trace_init, cam_mem_all-scanned}
use cam_alias_checker.Libcam.Streamer.{MemoryTraceStreamer, new_streamer, get_next_chunk}
use cam_alias_checker.Libcam.Streamer.Parse.{joined, unread}
use cam_alias_checker.Libcam.Streamer.Pending.{IsStreamer, IsChunk, pending}
use cam_alias_checker.Libcam.Streamer.Chunks.{nothing-IsChunk, get_next_chunk-IsChunk}

unfoldable pub sum : List ℕ → ℕ
sum [] = 0
sum (n ∷ ns) = n + sum ns

module _ (u : Uninit) where
  -- The chunks of the sizes in a list, put together.
  unfoldable pub stream : List ℕ → MemoryTraceStreamer → Option (MemSet × MemoryTraceStreamer)
  stream [] s = some ([], s)
  stream (n ∷ ns) s = do
    (c, s') ← get_next_chunk u n false s
    (d, s'') ← stream ns s'
    some (c ++ d, s'')

  IsChunk-trans :
      (a n m b : ℕ) (s s' s'' : MemoryTraceStreamer) (c d : MemSet)
      → IsStreamer u a b s
      → IsChunk u a n b s c s'
      → IsChunk u (a + n) m b s' d s''
      → IsChunk u a (n + m) b s (c ++ d) s''
  IsChunk-trans a n m b s s' s'' c d v h k =
      let at : a + n + m ≡ a + (n + m) = omega arith in
      let xs = accesses (pending u s) in
      let x = subst (λ z. IsContiguous (a + n) z d) at k.chunk in
      record {
        chunk = IsContiguous-append a (a + n) (a + (n + m)) c d h.chunk x;
        next = subst (λ z. IsStreamer u z b s'') at k.next;
        same =
            accesses-append c d
            ∙ ap (λ z. z ++ accesses d) h.same
            ∙ ap (λ z. take n xs ++ z) (k.same ∙ ap (take m) h.rest)
            ∙ take-add n m xs;
        rest = k.rest ∙ ap (drop m) h.rest ∙ sym (drop-add n m xs);
      }

  -- Chunks of instances that are still to come have them in order.
  pub stream-IsChunk :
      (a b : ℕ) (ns : List ℕ) (s : MemoryTraceStreamer)
      → IsStreamer u a b s
      → a + sum ns ≤ b
      → (c : MemSet) × (s' : MemoryTraceStreamer) × (stream ns s ≡ some (c, s'))
        × IsChunk u a (sum ns) b s c s'
  unfolding stream sum
  stream-IsChunk a b [] s v le = ([], s, refl, nothing-IsChunk u a b s v)
  stream-IsChunk a b (n ∷ ns) s v le =
      let (c, s', e, h) = get_next_chunk-IsChunk u a n b false s v (omega (arith, le)) in
      let (d, s'', f, k) = stream-IsChunk (a + n) b ns s' h.next (omega (arith, le)) in
      (c ++ d, s'', rw (e, f) refl, IsChunk-trans a n (sum ns) b s s' s'' c d v h k)

  -- A streamer on a file whose entries number their instances from 0 on.
  new_streamer-IsStreamer :
      (c id b : ℕ) (file : List Number) (blocks : List (List Number)) (write : Bool)
      → joined blocks ≡ file
      → IsContiguous 0 b (scanned u c file).memset
      → IsStreamer u 0 b (new_streamer c id blocks write)
        × (pending u (new_streamer c id blocks write) ≡ (scanned u c file).memset)
  unfolding unread
  new_streamer-IsStreamer c id b file blocks write e v =
      let same = ap (λ f. (scanned u c f).memset) e in
      (
        record {
          closed = λ p. absurd (ground (arith, p));
          contiguous = subst (λ z. IsContiguous 0 b z) (sym same) v;
        },
        same,
      )

  -- A new streamer on a file with as many instances as the chunks ask for gives all of them.
  stream-new_streamer :
      (c id b : ℕ) (file : List Number) (blocks : List (List Number)) (write : Bool) (ns : List ℕ)
      → joined blocks ≡ file
      → IsContiguous 0 b (scanned u c file).memset
      → sum ns ≡ b
      → (set : MemSet) × (s : MemoryTraceStreamer) × (stream ns (new_streamer c id blocks write)
          ≡ some (set, s))
        × (accesses set ≡ accesses (scanned u c file).memset)
        × IsContiguous 0 b set
  stream-new_streamer c id b file blocks write ns e v n =
      let start = new_streamer c id blocks write in
      let (h, same) = new_streamer-IsStreamer c id b file blocks write e v in
      let (set, s, f, k) = stream-IsChunk 0 b ns start h (omega (arith, n)) in
      let size : length (accesses (pending u start)) ≡ sum ns =
        omega (arith, n, length-accesses 0 b (pending u start) h.contiguous) in
      (
        set,
        s,
        f,
        k.same ∙ take-length (sum ns) (accesses (pending u start)) size ∙ ap accesses same,
        subst (λ z. IsContiguous 0 z set) (let q : 0 + sum ns ≡ b = omega (arith, n) in q) k.chunk,
      )

  -- The reads of an instruction that a run leaves in its file come back in chunks, whatever blocks the
  -- file is read in and whatever the sizes of the chunks: as many instances as there are make chunks that
  -- have the reads in the order of the calls, numbered without a gap, and no assertion fails. The
  -- conditions are that the run ends in time, that the start plus the timeout is below 2 ^ 31, as an
  -- `int` must be, and that the run accesses the lower half of the address space and makes fewer than 2 ^
  -- 64 reads and writes there.
  pub cam_mem_all-streamed :
      (c now timeout limit id : ℕ) (es : List Event) (blocks : List (List Number)) (ns : List ℕ)
      → now + timeout < 2 ^ 31
      → AllPossible (now + timeout) es
      → length (all_reads id es) < word
      → length (all_writes id es) < word
      → joined blocks
        ≡ (memory_trace_shutdown (cam_mem_all limit es (memory_trace_init now timeout))).files.reads
            id
      → sum ns ≡ length (all_reads id es)
      → (set : MemSet) × (s : MemoryTraceStreamer) × (stream ns (new_streamer c id blocks false)
          ≡ some (set, s))
        × (accesses set ≡ all_reads id es)
        × IsContiguous 0 (length (all_reads id es)) set
  cam_mem_all-streamed c now timeout limit id es blocks ns int p lr lw e n =
      let (ra, rc, _, _) = cam_mem_all-scanned u c now timeout limit id es int p lr lw in
      let files =
        (memory_trace_shutdown (cam_mem_all limit es (memory_trace_init now timeout))).files in
      let (set, s, f, same, v) =
        stream-new_streamer c id (length (all_reads id es)) (files.reads id) blocks false ns e rc
          n in
      (set, s, f, same ∙ ra, v)
