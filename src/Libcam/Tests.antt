-- ===== src/Libcam/Tests.antt =====
-- The theorems on memory traces at a short run.
use cam_alias_checker.Prelude.{
  ℕ, ◌+◌, ◌-◌, ◌^◌, ◌≡◌, refl, true, List, [], ◌∷◌, ◌++◌, length, arith,
}
use cam_alias_checker.Libcam.Machine.{plus}
use cam_alias_checker.Libcam.MemoryTracer.{
  TracerMemSet, Files, Event, cam_mem_all, memory_trace_shutdown, cam_mem, check_time,
  record_memory_reference,
}
use cam_alias_checker.Libcam.MemoryTracer.Record
use cam_alias_checker.Libcam.MemoryTracer.Record.{IsNumbered, record_memory_reference-accesses}
use cam_alias_checker.Libcam.MemSet.{
  MemSetEntry, Uninit, entry, split_off_end, split_large_strides,
  get_first_dynamic_instance_from_address,
}
use cam_alias_checker.Libcam.MemSet.Entry.{accesses, IsEntry, IsSplit, split_off_end-IsSplit}
use cam_alias_checker.Libcam.MemSet.Singles.{split_large_strides-accesses}
use cam_alias_checker.Libcam.MemSet.Contiguous.{IsContiguous}
use cam_alias_checker.Libcam.MemoryParser.Traced.{scanned}
use cam_alias_checker.Libcam.Runs.{all_reads, all_writes}
use cam_alias_checker.Libcam.RoundTrip.{memory_trace_init, cam_mem_all-scanned}

abbrev u : Uninit
u = record { iteration_number = 0; effective_instr_id = 0 }

-- instruction 1 reads two numbers of 8 bytes and writes one
abbrev call : (mem_used addr : ℕ) → Event
call mem_used addr = record {
  now = 3;
  mem_used = mem_used;
  reference = record {
    id = 1;
    raddr1 = addr;
    rlen1 = 8;
    raddr2 = addr + 16;
    rlen2 = 8;
    waddr = 64;
    wlen = 8;
  };
}

-- The memory is short after the second call.
abbrev calls : List Event
calls = call 10 1000 ∷ call 60 1040 ∷ call 20 1080 ∷ []

abbrev files : Files
files = (memory_trace_shutdown (cam_mem_all 50 calls (memory_trace_init 0 100))).files

written :
    files.writes 1
    ≡ plus 1
      ∷ plus 0
      ∷ plus 1
      ∷ plus 64
      ∷ plus 0
      ∷ plus 8
      ∷ plus 2
      ∷ plus 1
      ∷ plus 0
      ∷ plus 1
      ∷ plus 64
      ∷ plus 0
      ∷ plus 8
      ∷ plus 1
      ∷ []
unfolding memory_trace_shutdown cam_mem_all cam_mem
written = refl

cam_mem_all-scanned_example :
    let r = scanned u 0 (files.reads 1) in
    let w = scanned u 0 (files.writes 1) in
    (accesses r.memset ≡ all_reads 1 calls)
    × IsContiguous 0 (length (all_reads 1 calls)) r.memset
    × (accesses w.memset ≡ all_writes 1 calls)
    × IsContiguous 0 (length (all_writes 1 calls)) w.memset
unfolding all_reads all_writes
cam_mem_all-scanned_example =
    cam_mem_all-scanned u 0 0 100 50 1 calls (omega arith) (omega arith) (omega arith) (omega arith)

-- two accesses 8 bytes apart
abbrev pair : TracerMemSet
pair = record { base = 16; stride = 8; length = 8; start = 0; end = 1 } ∷ []

record_memory_reference-accesses_example :
    IsNumbered 3 (record_memory_reference pair 32 8)
    × (Record.accesses (record_memory_reference pair 32 8) ≡ Record.accesses pair ++ (32, 8) ∷ [])
record_memory_reference-accesses_example =
    record_memory_reference-accesses pair 2 32 8 (omega arith) (omega arith) (omega arith)
      (omega arith)

-- five accesses backwards
abbrev five : MemSetEntry
five = entry u 80 (2 ^ 64 - 8) 8 10 14

five-IsEntry : IsEntry five
five-IsEntry = omega arith

split_off_end-IsSplit_example :
    IsSplit five 12 (split_off_end u 2 five).0 (split_off_end u 2 five).1
split_off_end-IsSplit_example =
    split_off_end-IsSplit u five five-IsEntry 2 (omega arith) (omega arith)

split_large_strides-accesses_example :
    accesses (split_large_strides u (five ∷ [])) ≡ accesses (five ∷ [])
split_large_strides-accesses_example = split_large_strides-accesses u (five ∷ []) (five-IsEntry, tt)

-- The second access of an entry that goes backwards is instance 11, and the third is taken for the
-- first: the quotient is one of unsigned words.
lost_instance :
    (get_first_dynamic_instance_from_address 72 five ≡ 11)
    × (get_first_dynamic_instance_from_address 64 five ≡ 10)
unfolding get_first_dynamic_instance_from_address
lost_instance = (refl, refl)

-- A timeout of 1_000_000_000 seconds in November 2023: the sum wraps, and the time is out at once.
overflowing_timeout :
    (check_time 1_700_000_000 (memory_trace_init 1_700_000_000 1_000_000_000).counter).timed_out
    ≡ true
unfolding check_time
overflowing_timeout = refl
