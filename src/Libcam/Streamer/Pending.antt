-- ===== src/Libcam/Streamer/Pending.antt =====
-- What a streamer has still to come, and the state when enough of the trace is parsed.
use cam_alias_checker.Prelude.{
  ℕ, ◌+◌, ◌≤◌, ◌<◌, ◌≡◌, ap, sym, subst, ◌∙◌, false, [], ◌++◌, arith, inl, inr, ◌⊎◌, take, drop,
}
use cam_alias_checker.Libcam.MemSet.{Uninit, MemSet}
use cam_alias_checker.Libcam.MemSet.Entry.{accesses}
use cam_alias_checker.Libcam.MemSet.Contiguous.{IsContiguous}
use cam_alias_checker.Libcam.MemoryParser.Feed.{feed}
use cam_alias_checker.Libcam.MemoryParser.Prefix.{memset-feed}
use cam_alias_checker.Libcam.Streamer.{MemoryTraceStreamer, parse_until, parse_rounds}
use cam_alias_checker.Libcam.Streamer.Parse.{unread, parse_until-IsParsed, parse_until-enough}
use cam_alias_checker.Libcam.Streamer.Split.{
  get_num_buffered_instances-IsContiguous, IsContiguous-parts,
}

module _ (u : Uninit) where
  -- the entries that the rest of the file has
  abbrev pub more : MemoryTraceStreamer → MemSet
  more s = (feed u (record s.mtl { memset = [] }) (unread s.parser)).memset

  -- the entries that are still to come
  abbrev pub pending : MemoryTraceStreamer → MemSet
  pending s = s.remainder ++ more s

  -- The instances `a` to below `b` are still to come.
  pub record IsStreamer (a b : ℕ) (s : MemoryTraceStreamer) : Type 0 where
    pub closed : s.status ≡ false → unread s.parser ≡ []
    pub contiguous : IsContiguous a b (pending s)

  -- `c` has the first `n` instances that `s` has to come, and `s'` has the later ones.
  pub record IsChunk (a n b : ℕ) (s : MemoryTraceStreamer) (c : MemSet) (s' : MemoryTraceStreamer)
      : Type 0 where
    pub chunk : IsContiguous a (a + n) c
    pub next : IsStreamer (a + n) b s'
    pub same : accesses c ≡ take n (accesses (pending s))
    pub rest : accesses (pending s') ≡ drop n (accesses (pending s))

  -- The state when enough is parsed.
  pub record IsRead (a n b : ℕ) (s p : MemoryTraceStreamer) : Type 0 where
    pub middle : ℕ
    pub front : IsContiguous a middle p.mtl.memset
    pub later : IsContiguous middle b (more p)
    pub total : pending s ≡ p.mtl.memset ++ more p
    pub closed : p.status ≡ false → unread p.parser ≡ []
    pub enough : (a + n ≤ middle) ⊎ (middle ≡ b)

  abbrev pub parsed : ℕ → MemoryTraceStreamer → MemoryTraceStreamer
  parsed n s = parse_until u (parse_rounds s.parser + 1) n (record s {
    remainder = [];
    mtl = record s.mtl { memset = s.remainder; num_instances_required = n };
  })

  pub parsed-IsRead :
      (a n b : ℕ) (s : MemoryTraceStreamer) → 0 < n → IsStreamer a b s → IsRead a n b s (parsed n s)
  unfolding feed
  parsed-IsRead a n b s pos v =
      let start = record s {
        remainder = [];
        mtl = record s.mtl { memset = s.remainder; num_instances_required = n };
      } in
      let p = parsed n s in
      let h = parse_until-IsParsed u (parse_rounds s.parser + 1) n start v.closed in
      let total : pending s ≡ p.mtl.memset ++ more p =
        sym (memset-feed u (unread s.parser) s.remainder n s.mtl.start_instance s.mtl)
        ∙ ap (λ l. l.memset) (sym h.same)
        ∙ memset-feed u (unread p.parser) p.mtl.memset p.mtl.num_instances_required
            p.mtl.start_instance p.mtl in
      let (m, front, later) =
        IsContiguous-parts a b p.mtl.memset (more p)
          (subst (λ z. IsContiguous a b z) total v.contiguous) in
      let count = get_num_buffered_instances-IsContiguous a m p.mtl.memset front in
      record {
        middle = m;
        front = front;
        later = later;
        total = total;
        closed = h.closed;
        enough =
            elim (parse_until-enough u (parse_rounds s.parser + 1) n start v.closed (omega arith)) [
              | inl e ↦ inl (omega (arith, e, count, pos))
              | inr e ↦ inr (
                  subst (λ z. IsContiguous m b (feed u (record p.mtl { memset = [] }) z).memset) e
                    later)
            ];
      }
