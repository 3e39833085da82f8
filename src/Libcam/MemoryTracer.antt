-- ===== src/Libcam/MemoryTracer.antt =====
-- libcam/src/MemoryTracer.cpp and TimeoutCounter.h: the tracer compresses the accesses of each
-- instruction to strided entries while the program runs, and writes them out when memory is short.
pub mod Record
use cam_alias_checker.Prelude.{
  ℕ, ◌+◌, ◌*◌, ◌%◌, ◌^◌, Bool, true, false, not, Option, none, some, List, [], ◌∷◌, ◌++◌, ltb, ◌==◌,
  if◌then◌else◌, length, reverse,
}
use cam_alias_checker.Libcam.Machine.{word, sub_word, Number, plus, print_unsigned, print_signed}

pub record TracerMemSetEntry : Type 0 where
  pub base : ℕ
  pub stride : ℕ
  pub length : ℕ
  pub start : ℕ
  pub end : ℕ

-- `getNumInstances`
abbrev pub get_num_instances : TracerMemSetEntry → ℕ
get_num_instances e = (sub_word e.end e.start + 1) % word

abbrev pub prediction : TracerMemSetEntry → ℕ
prediction e = (e.base + e.stride * get_num_instances e) % word

abbrev pub inc_end : TracerMemSetEntry → TracerMemSetEntry
inc_end e = record e { end = (e.end + 1) % word }

-- the youngest entry, `back()`, first
abbrev pub TracerMemSet : Type 0
TracerMemSet = List TracerMemSetEntry

abbrev pub new_mem_set_entry : TracerMemSet → (base stride length start end : ℕ) → TracerMemSet
new_mem_set_entry es b s l st e =
    record { base = b; stride = s; length = l; start = st; end = e } ∷ es

unfoldable pub record_memory_reference : TracerMemSet → (addr len : ℕ) → TracerMemSet
record_memory_reference [] addr len = new_mem_set_entry [] addr 0 len 0 0
record_memory_reference (prev ∷ es) addr len =
    let next = (prev.end + 1) % word in
    if not (prev.length == len)
    then new_mem_set_entry (prev ∷ es) addr 0 len next next
    else if prev.start == prev.end
    then inc_end (record prev { stride = sub_word addr prev.base }) ∷ es
    else if prediction prev == addr
    then inc_end prev ∷ es
    else new_mem_set_entry (prev ∷ es) addr 0 len next next

-- The numbers that `dumpInitialEntry` and `dumpEntry` print.
abbrev pub dump_initial_entry : TracerMemSetEntry → List Number
dump_initial_entry e =
    print_unsigned e.base
    ∷ print_signed e.stride
    ∷ print_unsigned e.length
    ∷ print_unsigned (get_num_instances e)
    ∷ []

abbrev pub dump_entry : (entry prev : TracerMemSetEntry) → List Number
dump_entry e prev =
    print_signed (sub_word e.base prev.base)
    ∷ print_signed e.stride
    ∷ print_unsigned e.length
    ∷ print_unsigned (get_num_instances e)
    ∷ []

-- the entries of a set, the youngest first, each after those before it
unfoldable pub dump_entries : TracerMemSet → List Number
dump_entries [] = []
dump_entries (e ∷ []) = dump_initial_entry e
dump_entries (e ∷ prev ∷ es) = dump_entries (prev ∷ es) ++ dump_entry e prev

unfoldable pub dump_set : TracerMemSet → List Number
unfolding dump_entries
dump_set es = print_unsigned (length es) ∷ dump_entries es

pub record TracerStaticInstRec : Type 0 where
  pub read_set : TracerMemSet
  pub write_set : TracerMemSet

-- the map from instructions to their records
abbrev pub TracerMemoryTrace : Type 0
TracerMemoryTrace = ℕ → Option TracerStaticInstRec

-- The trace files hold numbers: one file for the reads of an instruction, one for the writes.
pub record Files : Type 0 where
  pub reads : ℕ → List Number
  pub writes : ℕ → List Number

abbrev pub is_empty_set : TracerMemSet → Bool
is_empty_set [] = true
is_empty_set (e ∷ es) = false

unfoldable pub dump_reads : ℕ → Option TracerStaticInstRec → List Number
unfolding dump_set
dump_reads id none = []
dump_reads id (some rec) =
    if is_empty_set rec.read_set
    then []
    else (print_unsigned id ∷ dump_set rec.read_set) ++ plus 0 ∷ []

unfoldable pub dump_writes : ℕ → Option TracerStaticInstRec → List Number
unfolding dump_set
dump_writes id none = []
dump_writes id (some rec) =
    if is_empty_set rec.write_set then [] else print_unsigned id ∷ plus 0 ∷ dump_set rec.write_set

-- `dumpMemoryTrace` appends to the files of each instruction.
unfoldable pub dump_memory_trace : TracerMemoryTrace → Files → Files
unfolding dump_reads dump_writes
dump_memory_trace trace files = record {
  reads = λ id. files.reads id ++ dump_reads id (trace id);
  writes = λ id. files.writes id ++ dump_writes id (trace id);
}

-- The `int` fields are the 32 bits of their two's complement.
pub record TimeoutCounter : Type 0 where
  pub init_time : ℕ
  pub timeout : ℕ
  pub timed_out : Bool
  pub num_operations : ℕ
  pub num_operations_at_timeout : ℕ

-- The sum of two `int`s. One that overflows, which C leaves undefined, wraps.
abbrev pub add_int : (a b : ℕ) → ℕ
add_int a b = (a + b) % 2 ^ 32

-- whether an `int` is less than a time, which is not negative
abbrev pub int_before : (i now : ℕ) → Bool
int_before i now = if ltb i (2 ^ 31) then ltb i now else true

-- `now` is what `time` returns.
unfoldable pub check_time : (now : ℕ) → TimeoutCounter → TimeoutCounter
check_time now c =
    if int_before (add_int c.init_time c.timeout) now
    then record c { timed_out = true; num_operations_at_timeout = c.num_operations }
    else c

abbrev pub add_operation : TimeoutCounter → TimeoutCounter
add_operation c = record c { num_operations = (c.num_operations + 1) % word }

-- whether the time is out, with the counter
unfoldable pub record_operation : (now : ℕ) → TimeoutCounter → Bool × TimeoutCounter
unfolding check_time
record_operation now c =
    let d = add_operation c in
    if d.timed_out
    then (true, d)
    else (false, if d.num_operations % 1_000_000 == 0 then check_time now d else d)

pub record Tracer : Type 0 where
  pub trace : TracerMemoryTrace
  pub counter : TimeoutCounter
  pub files : Files

abbrev pub empty_trace : TracerMemoryTrace
empty_trace id = none

-- `CAM_forceMemTraceDump`
unfoldable pub force_mem_trace_dump : Tracer → Tracer
unfolding dump_memory_trace
force_mem_trace_dump t = record t { trace = empty_trace; files = dump_memory_trace t.trace t.files }

-- `mem_used` is what the allocator has given out and `limit` the bound from the environment.
unfoldable pub check_dump_trace : (mem_used limit : ℕ) → Tracer → Tracer
unfolding force_mem_trace_dump
check_dump_trace mem_used limit t = if ltb limit mem_used then force_mem_trace_dump t else t

-- The arguments of `CAM_mem`: two reads and a write, each absent if its length is 0.
pub record Reference : Type 0 where
  pub id : ℕ
  pub raddr1 : ℕ
  pub rlen1 : ℕ
  pub raddr2 : ℕ
  pub rlen2 : ℕ
  pub waddr : ℕ
  pub wlen : ℕ

abbrev pub record_if : TracerMemSet → (addr len : ℕ) → TracerMemSet
record_if es addr len = if ltb 0 len then record_memory_reference es addr len else es

unfoldable pub record_references : TracerStaticInstRec → Reference → TracerStaticInstRec
unfolding record_memory_reference
record_references rec r = record {
  read_set = record_if (record_if rec.read_set r.raddr1 r.rlen1) r.raddr2 r.rlen2;
  write_set = record_if rec.write_set r.waddr r.wlen;
}

abbrev pub find_or_new : Option TracerStaticInstRec → TracerStaticInstRec
find_or_new none = record { read_set = []; write_set = [] }
find_or_new (some rec) = rec

unfoldable pub cam_mem : (now mem_used limit : ℕ) → Tracer → Reference → Tracer
unfolding record_operation check_dump_trace record_references
cam_mem now mem_used limit t r =
    let (out, c) = record_operation now t.counter in
    if out
    then record t { counter = c }
    else check_dump_trace mem_used limit (record t {
      counter = c;
      trace = λ id.
          if id == r.id
          then some (record_references (find_or_new (t.trace r.id)) r)
          else t.trace id;
    })

-- The calls of `CAM_mem` in a run, each with the time and the memory in use when it comes.
pub record Event : Type 0 where
  pub now : ℕ
  pub mem_used : ℕ
  pub reference : Reference

unfoldable pub cam_mem_all : (limit : ℕ) → List Event → Tracer → Tracer
cam_mem_all limit [] t = t
cam_mem_all limit (e ∷ es) t = cam_mem_all limit es (cam_mem e.now e.mem_used limit t e.reference)

-- `memory_trace_shutdown` writes out what is left.
unfoldable pub memory_trace_shutdown : Tracer → Tracer
unfolding dump_memory_trace
memory_trace_shutdown t = record t { files = dump_memory_trace t.trace t.files }
