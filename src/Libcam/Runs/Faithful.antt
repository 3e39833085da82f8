-- ===== src/Libcam/Runs/Faithful.antt =====
-- What the files and the memory of the tracer hold after each step of a run.
use cam_alias_checker.Prelude.{
  ℕ, ◌^◌, ◌<◌, ◌≡◌, ap, List, [], ◌∷◌, ◌++◌, append_assoc, append-nil, ◌==◌, ltb, if◌then◌else◌,
  arith, Bool-cases, ==_iff, inl, inr, length, length-append, subst, some, none, Option,
}
use cam_alias_checker.Libcam.Machine.{word, Number}
use cam_alias_checker.Libcam.Accesses.{Access}
use cam_alias_checker.Libcam.MemoryTracer.{
  TracerMemSet, TracerStaticInstRec, TimeoutCounter, Tracer, Reference, Event, record_if,
  record_references, find_or_new, record_operation, check_dump_trace, force_mem_trace_dump,
  dump_memory_trace, dump_reads, dump_writes, cam_mem, cam_mem_all,
}
use cam_alias_checker.Libcam.MemSet.{Uninit}
use cam_alias_checker.Libcam.MemoryParser.Traced.{
  IsTraced, record_memory_reference-IsTraced, dump_reads-IsTraced, dump_writes-IsTraced,
}
use cam_alias_checker.Libcam.Runs.{
  access_if, reads_of, writes_of, all_reads, all_writes, IsPossible, AllPossible, IsRunning,
  record_operation-IsRunning,
}

module _ (u : Uninit) (c : ℕ) where
  record_if-IsTraced :
      (file : List Number) (es : TracerMemSet) (past : List Access) (addr len : ℕ)
      → IsTraced u c file es past
      → addr < 2 ^ 63
      → len < word
      → length past < word
      → IsTraced u c file (record_if es addr len) (past ++ access_if addr len)
  record_if-IsTraced file es past addr len v la ll lp = elim (Bool-cases (ltb 0 len)) [
    | inl p ↦ rw p (record_memory_reference-IsTraced u c file es past addr len v la ll lp)
    | inr p ↦ rw (p, append-nil) v
  ]

  -- The files and the memory of the tracer hold the accesses `rs` and `ws` of `id`.
  pub record IsFaithful (deadline id : ℕ) (rs ws : List Access) (t : Tracer) : Type 0 where
    pub reads : IsTraced u c (t.files.reads id) (find_or_new (t.trace id)).read_set rs
    pub writes : IsTraced u c (t.files.writes id) (find_or_new (t.trace id)).write_set ws
    pub running : IsRunning deadline t.counter

  pub dumped_reads :
      (file : List Number) (id : ℕ) (o : Option TracerStaticInstRec) (past : List Access)
      → IsTraced u c file (find_or_new o).read_set past
      → length past < word
      → IsTraced u c (file ++ dump_reads id o) [] past
  unfolding dump_reads
  dumped_reads file id none past v lt = rw append-nil v
  dumped_reads file id (some rec) past v lt = dump_reads-IsTraced u c file id rec past v lt

  pub dumped_writes :
      (file : List Number) (id : ℕ) (o : Option TracerStaticInstRec) (past : List Access)
      → IsTraced u c file (find_or_new o).write_set past
      → length past < word
      → IsTraced u c (file ++ dump_writes id o) [] past
  unfolding dump_writes
  dumped_writes file id none past v lt = rw append-nil v
  dumped_writes file id (some rec) past v lt = dump_writes-IsTraced u c file id rec past v lt

  module _ (deadline id : ℕ) where
    dump-IsFaithful :
        (rs ws : List Access) (t : Tracer)
        → IsFaithful deadline id rs ws t
        → length rs < word
        → length ws < word
        → IsFaithful deadline id rs ws (force_mem_trace_dump t)
    unfolding force_mem_trace_dump dump_memory_trace
    dump-IsFaithful rs ws t v lr lw = record {
      reads = dumped_reads (t.files.reads id) id (t.trace id) rs v.reads lr;
      writes = dumped_writes (t.files.writes id) id (t.trace id) ws v.writes lw;
      running = v.running;
    }

    check_dump_trace-IsFaithful :
        (mem_used limit : ℕ) (rs ws : List Access) (t : Tracer)
        → IsFaithful deadline id rs ws t
        → length rs < word
        → length ws < word
        → IsFaithful deadline id rs ws (check_dump_trace mem_used limit t)
    unfolding check_dump_trace
    check_dump_trace-IsFaithful mem_used limit rs ws t v lr lw =
        elim (Bool-cases (ltb limit mem_used)) [
          | inl p ↦ rw p (dump-IsFaithful rs ws t v lr lw)
          | inr p ↦ rw p v
        ]

    -- the state in which `CAM_mem` leaves the map and the counter
    abbrev recorded : Tracer → TimeoutCounter → Reference → Tracer
    recorded t d r = record t {
      counter = d;
      trace = λ i.
          if i == r.id then some (record_references (find_or_new (t.trace r.id)) r) else t.trace i;
    }

    recorded-IsFaithful :
        (rs ws : List Access) (t : Tracer) (d : TimeoutCounter) (e : Event)
        → IsFaithful deadline id rs ws t
        → IsPossible deadline e
        → IsRunning deadline d
        → length (rs ++ reads_of id e.reference) < word
        → length (ws ++ writes_of id e.reference) < word
        → IsFaithful deadline id
            (rs ++ reads_of id e.reference)
            (ws ++ writes_of id e.reference)
            (recorded t d e.reference)
    unfolding record_references
    recorded-IsFaithful rs ws t d e v p run lr lw = elim (Bool-cases (id == e.reference.id)) [
      | inl same ↦
          let r = e.reference in
          let here : find_or_new (t.trace id) ≡ find_or_new (t.trace r.id) =
            ap (λ i. find_or_new (t.trace i)) ((==_iff id r.id).0 same) in
          let a = access_if r.raddr1 r.rlen1 in
          let b = access_if r.raddr2 r.rlen2 in
          let w = access_if r.waddr r.wlen in
          let lr' : length (rs ++ (a ++ b)) < word = rw same at lr in
          let lw' : length (ws ++ w) < word = rw same at lw in
          let more = length-append rs (a ++ b) in
          let first =
            record_if-IsTraced (t.files.reads id) (find_or_new (t.trace id)).read_set rs r.raddr1
              r.rlen1 v.reads p.raddr1 p.rlen1 (omega (arith, lr', more)) in
          let second =
            record_if-IsTraced (t.files.reads id)
              (record_if (find_or_new (t.trace id)).read_set r.raddr1 r.rlen1) (rs ++ a) r.raddr2
              r.rlen2 first p.raddr2 p.rlen2
              (omega (arith, lr', more, length-append rs a, length-append a b)) in
          let written =
            record_if-IsTraced (t.files.writes id) (find_or_new (t.trace id)).write_set ws r.waddr
              r.wlen v.writes p.waddr p.wlen (omega (arith, lw', length-append ws w)) in
          record {
            reads = rw same (
                subst
                  (λ x.
                    IsTraced u c (t.files.reads id)
                      (record_if (record_if x.read_set r.raddr1 r.rlen1) r.raddr2 r.rlen2)
                      (rs ++ (a ++ b)))
                  here
                  (subst
                    (IsTraced u c (t.files.reads id) (
                      record_if (record_if (find_or_new (t.trace id)).read_set r.raddr1 r.rlen1)
                        r.raddr2 r.rlen2))
                    (append_assoc rs a b) second));
            writes = rw same (
                subst
                  (λ x.
                    IsTraced u c (t.files.writes id) (record_if x.write_set r.waddr r.wlen)
                      (ws ++ w))
                  here written);
            running = run;
          }
      | inr other ↦ record {
        reads = rw (other, append-nil rs) v.reads;
        writes = rw (other, append-nil ws) v.writes;
        running = run;
      }
    ]

    cam_mem-IsFaithful :
        (limit : ℕ) (rs ws : List Access) (t : Tracer) (e : Event)
        → IsFaithful deadline id rs ws t
        → IsPossible deadline e
        → length (rs ++ reads_of id e.reference) < word
        → length (ws ++ writes_of id e.reference) < word
        → IsFaithful deadline id
            (rs ++ reads_of id e.reference)
            (ws ++ writes_of id e.reference)
            (cam_mem e.now e.mem_used limit t e.reference)
    unfolding cam_mem
    cam_mem-IsFaithful limit rs ws t e v p lr lw =
        let (going, run) =
          record_operation-IsRunning deadline e.now t.counter v.running p.in_time in
        rw going (
          check_dump_trace-IsFaithful e.mem_used limit (rs ++ reads_of id e.reference)
            (ws ++ writes_of id e.reference)
            (recorded t (record_operation e.now t.counter).1 e.reference)
            (recorded-IsFaithful rs ws t (record_operation e.now t.counter).1 e v p run lr lw) lr
            lw)

    pub cam_mem_all-IsFaithful :
        (limit : ℕ) (es : List Event) (rs ws : List Access) (t : Tracer)
        → IsFaithful deadline id rs ws t
        → AllPossible deadline es
        → length (rs ++ all_reads id es) < word
        → length (ws ++ all_writes id es) < word
        → IsFaithful deadline id
            (rs ++ all_reads id es)
            (ws ++ all_writes id es)
            (cam_mem_all limit es t)
    unfolding cam_mem_all all_reads all_writes
    cam_mem_all-IsFaithful limit [] rs ws t v p lr lw = rw (append-nil rs, append-nil ws) v
    cam_mem_all-IsFaithful limit (e ∷ es) rs ws t v p lr lw =
        let r = reads_of id e.reference in
        let w = writes_of id e.reference in
        let lr' : length (rs ++ r ++ all_reads id es) < word =
          rw (append_assoc rs r (all_reads id es)) lr in
        let lw' : length (ws ++ w ++ all_writes id es) < word =
          rw (append_assoc ws w (all_writes id es)) lw in
        rw (← append_assoc rs r (all_reads id es), ← append_assoc ws w (all_writes id es))
          (cam_mem_all-IsFaithful limit es (rs ++ r) (ws ++ w)
            (cam_mem e.now e.mem_used limit t e.reference)
            (cam_mem-IsFaithful limit rs ws t e v p.0
              (omega (arith, lr', length-append (rs ++ r) (all_reads id es)))
              (omega (arith, lw', length-append (ws ++ w) (all_writes id es))))
            p.1 lr' lw')
