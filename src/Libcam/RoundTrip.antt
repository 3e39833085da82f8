-- ===== src/Libcam/RoundTrip.antt =====
-- From the calls of CAM_mem through the trace files to the entries that the scanner reads back:
-- libcam/src/MemoryTracer.cpp and memory_trace_parser.lex together.
use cam_alias_checker.Prelude.{
  ℕ, ◌^◌, ◌+◌, ◌%◌, ◌<◌, ◌≡◌, refl, sym, ◌∙◌, false, List, [], ◌++◌, append-nil, arith, length,
  subst,
}
use cam_alias_checker.Libcam.Machine.{word, Number}
use cam_alias_checker.Libcam.Accesses.{Access}
use cam_alias_checker.Libcam.MemoryTracer.{
  Tracer, Event, dump_memory_trace, dump_reads, dump_writes, cam_mem_all, memory_trace_shutdown,
  empty_trace,
}
use cam_alias_checker.Libcam.MemoryTracer.Record
use cam_alias_checker.Libcam.MemSet.{Uninit}
use cam_alias_checker.Libcam.MemSet.Entry.{accesses}
use cam_alias_checker.Libcam.MemSet.Contiguous.{IsContiguous}
use cam_alias_checker.Libcam.MemoryParser.Traced.{scanned, IsTraced, nothing-IsTraced}
use cam_alias_checker.Libcam.Runs.{all_reads, all_writes, AllPossible}
use cam_alias_checker.Libcam.Runs.Faithful.{dumped_reads, dumped_writes, cam_mem_all-IsFaithful}

-- a file with nothing left in memory
whole :
    (u : Uninit) (c : ℕ) (file : List Number) (past : List Access)
    → IsTraced u c file [] past
    → (accesses (scanned u c file).memset ≡ past)
      × IsContiguous 0 (length past) (scanned u c file).memset
unfolding Record.accesses
whole u c file past v = (
  sym (append-nil (accesses (scanned u c file).memset)) ∙ v.trace,
  subst (λ n. IsContiguous 0 n (scanned u c file).memset)
      (let e : (scanned u c file).next_expected_instance ≡ length past =
          omega (arith, v.count, v.numbered) in
        e)
      v.contiguous,
)

-- the tracer after its initialisation, with no file and a counter that starts
abbrev pub memory_trace_init : (now timeout : ℕ) → Tracer
memory_trace_init now timeout = record {
  trace = empty_trace;
  counter = record {
    init_time = now % 2 ^ 32;
    timeout = timeout % 2 ^ 32;
    timed_out = false;
    num_operations = 0;
    num_operations_at_timeout = 0;
  };
  files = record { reads = λ id. []; writes = λ id. [] };
}

-- The files that a run leaves for an instruction, scanned, give back its reads and its writes in the
-- order of the calls, with instances numbered without a gap, wherever the run writes out what it has: if
-- the run ends in time, and the start plus the timeout is below 2 ^ 31, as an `int` must be, and the run
-- accesses the lower half of the address space and makes fewer than 2 ^ 64 reads and writes there.
pub cam_mem_all-scanned :
    (u : Uninit) (c now timeout limit id : ℕ) (es : List Event)
    → now + timeout < 2 ^ 31
    → AllPossible (now + timeout) es
    → length (all_reads id es) < word
    → length (all_writes id es) < word
    → let files =
        (memory_trace_shutdown (cam_mem_all limit es (memory_trace_init now timeout))).files in
      let r = scanned u c (files.reads id) in
      let w = scanned u c (files.writes id) in
      (accesses r.memset ≡ all_reads id es)
      × IsContiguous 0 (length (all_reads id es)) r.memset
      × (accesses w.memset ≡ all_writes id es)
      × IsContiguous 0 (length (all_writes id es)) w.memset
unfolding memory_trace_shutdown dump_memory_trace
cam_mem_all-scanned u c now timeout limit id es int p lr lw =
    let start = nothing-IsTraced u c in
    let h =
      cam_mem_all-IsFaithful u c (now + timeout) id limit es [] [] (memory_trace_init now timeout)
        (record {
          reads = start;
          writes = start;
          running = record { going = refl; ends = omega (arith, int); is_int = int };
        })
        p lr lw in
    let t = cam_mem_all limit es (memory_trace_init now timeout) in
    let r = dumped_reads u c (t.files.reads id) id (t.trace id) (all_reads id es) h.reads lr in
    let w = dumped_writes u c (t.files.writes id) id (t.trace id) (all_writes id es) h.writes lw in
    let (ra, rc) = whole u c (t.files.reads id ++ dump_reads id (t.trace id)) (all_reads id es) r in
    let (wa, wc) =
      whole u c (t.files.writes id ++ dump_writes id (t.trace id)) (all_writes id es) w in
    (ra, rc, wa, wc)
