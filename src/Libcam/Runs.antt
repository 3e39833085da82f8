-- ===== src/Libcam/Runs.antt =====
-- Runs of the tracer: the calls of CAM_mem in libcam/src/MemoryTracer.cpp, with what they access.
pub mod Faithful
use cam_alias_checker.Prelude.{
  ℕ, ◌+◌, ◌^◌, ◌≤◌, ◌<◌, ◌≡◌, refl, ap, sym, ◌∙◌, false, List, [], ◌∷◌, ◌++◌, append_assoc,
  append-nil, ◌==◌, ltb, if◌then◌else◌, arith, Bool-cases, ==_iff, inl, inr, length, length-append,
  subst, some, none, Option,
}
use cam_alias_checker.Libcam.Machine.{word, Number}
use cam_alias_checker.Libcam.Accesses.{Access}
use cam_alias_checker.Libcam.MemoryTracer.{
  TracerMemSet, TracerStaticInstRec, TimeoutCounter, Tracer, Reference, Event, record_if,
  record_references, find_or_new, record_operation, check_time, add_int, int_before,
  check_dump_trace, force_mem_trace_dump, dump_memory_trace, dump_reads, dump_writes, cam_mem,
  cam_mem_all, memory_trace_shutdown, empty_trace,
}
use cam_alias_checker.Libcam.MemoryTracer.Record
use cam_alias_checker.Libcam.MemSet.{Uninit}
use cam_alias_checker.Libcam.MemSet.Entry.{accesses}
use cam_alias_checker.Libcam.MemSet.Contiguous.{IsContiguous}
use cam_alias_checker.Libcam.MemoryParser.Traced.{
  scanned, IsTraced, nothing-IsTraced, record_memory_reference-IsTraced, dump_reads-IsTraced,
  dump_writes-IsTraced,
}

-- an access, unless its length is 0
abbrev pub access_if : (addr len : ℕ) → List Access
access_if addr len = if ltb 0 len then (addr, len) ∷ [] else []

-- what a call of CAM_mem reads and writes as instruction `id`
abbrev pub reads_of : ℕ → Reference → List Access
reads_of id r = if id == r.id then access_if r.raddr1 r.rlen1 ++ access_if r.raddr2 r.rlen2 else []

abbrev pub writes_of : ℕ → Reference → List Access
writes_of id r = if id == r.id then access_if r.waddr r.wlen else []

unfoldable pub all_reads : ℕ → List Event → List Access
all_reads id [] = []
all_reads id (e ∷ es) = reads_of id e.reference ++ all_reads id es

unfoldable pub all_writes : ℕ → List Event → List Access
all_writes id [] = []
all_writes id (e ∷ es) = writes_of id e.reference ++ all_writes id es

-- Addresses in the lower half of the address space, lengths that are words, and a call in time.
pub record IsPossible (deadline : ℕ) (e : Event) : Type 0 where
  pub raddr1 : e.reference.raddr1 < 2 ^ 63
  pub raddr2 : e.reference.raddr2 < 2 ^ 63
  pub waddr : e.reference.waddr < 2 ^ 63
  pub rlen1 : e.reference.rlen1 < word
  pub rlen2 : e.reference.rlen2 < word
  pub wlen : e.reference.wlen < word
  pub in_time : e.now ≤ deadline

abbrev pub AllPossible : ℕ → List Event → Type 0
AllPossible deadline [] = Unit
AllPossible deadline (e ∷ es) = IsPossible deadline e × AllPossible deadline es

-- The counter has not seen the deadline pass, which is an `int`.
pub record IsRunning (deadline : ℕ) (c : TimeoutCounter) : Type 0 where
  pub going : c.timed_out ≡ false
  pub ends : add_int c.init_time c.timeout ≡ deadline
  pub is_int : deadline < 2 ^ 31

pub record_operation-IsRunning :
    (deadline now : ℕ) (c : TimeoutCounter)
    → IsRunning deadline c
    → now ≤ deadline
    → ((record_operation now c).0 ≡ false) × IsRunning deadline (record_operation now c).1
unfolding record_operation check_time
record_operation-IsRunning deadline now c v le = ground (arith, v.going, v.ends, v.is_int, le)
