-- ===== src/Libcam/Streamer/Tests.antt =====
-- The theorems on chunks at short traces.
use cam_alias_checker.Prelude.{
  ℕ, ◌+◌, ◌≡◌, refl, true, false, List, [], ◌∷◌, none, some, arith, length, append-nil,
}
use cam_alias_checker.Libcam.Machine.{Number, plus}
use cam_alias_checker.Libcam.MemSet.{Uninit, MemSet}
use cam_alias_checker.Libcam.MemSet.Entry.{accesses}
use cam_alias_checker.Libcam.MemSet.Contiguous.{IsContiguous}
use cam_alias_checker.Libcam.MemoryTracer.{Event, cam_mem_all, memory_trace_shutdown}
use cam_alias_checker.Libcam.Runs.{all_reads, all_writes}
use cam_alias_checker.Libcam.RoundTrip.{memory_trace_init}
use cam_alias_checker.Libcam.Streamer.{MemoryTraceStreamer, new_streamer, get_next_chunk}
use cam_alias_checker.Libcam.MemoryParser.{lex_number, pushed}
use cam_alias_checker.Libcam.MemoryParser.Feed.{feed}
use cam_alias_checker.Libcam.Streamer.Parse.{joined, unread}
use cam_alias_checker.Libcam.Streamer.Pending.{IsStreamer, IsChunk}
use cam_alias_checker.Libcam.Streamer.Chunks.{get_next_chunk-IsChunk, get_next_chunk-exhausted}
use cam_alias_checker.Libcam.Streamer.Streams.{stream, sum, cam_mem_all-streamed}

abbrev u : Uninit
u = record { iteration_number = 0; effective_instr_id = 0 }

-- five accesses 8 bytes apart and three of one address, in two blocks
abbrev blocks : List (List Number)
blocks =
    (plus 1 ∷ plus 2 ∷ plus 100 ∷ plus 8 ∷ plus 8 ∷ plus 5 ∷ plus 60 ∷ [])
    ∷ (plus 0 ∷ plus 8 ∷ plus 3 ∷ plus 0 ∷ [])
    ∷ []

abbrev opened : MemoryTraceStreamer
opened = new_streamer 0 1 blocks false

opened-IsStreamer : IsStreamer u 0 8 opened
unfolding feed unread joined lex_number pushed
opened-IsStreamer = record {
  closed = λ p. absurd (ground (arith, p));
  contiguous = (refl, omega arith, (refl, omega arith, refl));
}

get_next_chunk-IsChunk_example :
    (c : MemSet) × (s' : MemoryTraceStreamer) × (get_next_chunk u 6 false opened ≡ some (c, s'))
    × IsChunk u 0 6 8 opened c s'
get_next_chunk-IsChunk_example =
    get_next_chunk-IsChunk u 0 6 8 false opened opened-IsStreamer (omega arith)

get_next_chunk-exhausted_example :
    (get_next_chunk u 9 false opened ≡ none)
    × (c : MemSet) × (s' : MemoryTraceStreamer) × (get_next_chunk u 9 true opened ≡ some (c, s'))
    × IsChunk u 0 8 8 opened c s'
get_next_chunk-exhausted_example =
    get_next_chunk-exhausted u 0 9 8 opened opened-IsStreamer (omega arith) (omega arith)
      (omega arith)

-- instruction 1 reads two numbers of 8 bytes and writes one
abbrev call : (mem_used addr : ℕ) → Event
call mem_used addr = record {
  now = 3;
  mem_used = mem_used;
  reference = record {
    id = 1;
    raddr1 = addr;
    rlen1 = 8;
    raddr2 = addr + 16;
    rlen2 = 8;
    waddr = 64;
    wlen = 8;
  };
}

abbrev calls : List Event
calls = call 10 1000 ∷ call 60 1040 ∷ call 20 1080 ∷ []

abbrev file : List Number
file = (memory_trace_shutdown (cam_mem_all 50 calls (memory_trace_init 0 100))).files.reads 1

cam_mem_all-streamed_example :
    (set : MemSet) × (s : MemoryTraceStreamer) × (stream u
        (2 ∷ 3 ∷ 1 ∷ [])
        (new_streamer 0 1 (file ∷ []) false)
      ≡ some (set, s))
    × (accesses set ≡ all_reads 1 calls)
    × IsContiguous 0 (length (all_reads 1 calls)) set
unfolding all_reads all_writes sum joined
cam_mem_all-streamed_example =
    cam_mem_all-streamed u 0 0 100 50 1 calls (file ∷ []) (2 ∷ 3 ∷ 1 ∷ []) (omega arith)
      (omega arith) (omega arith) (omega arith) (append-nil file) refl
