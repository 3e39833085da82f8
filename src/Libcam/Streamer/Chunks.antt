-- ===== src/Libcam/Streamer/Chunks.antt =====
-- The chunks of a memory trace, one after the other, are the trace.
use cam_alias_checker.Prelude.{
  ℕ, zero, suc, ◌+◌, ◌-◌, ◌%◌, ◌≤◌, ◌<◌, ◌≡◌, refl, ap, sym, subst, ◌∙◌, Bool, true, false, [], ◌∷◌,
  ◌++◌, append-nil, append_assoc, arith, inl, inr, ◌||◌, ◌==◌, Option, none, some, length, take,
  drop, take_append, drop_append, if◌then◌else◌,
}
use cam_alias_checker.Libcam.Machine.{word, sub_word}
use cam_alias_checker.Libcam.MemSet.{Uninit, MemSet}
use cam_alias_checker.Libcam.MemSet.Entry.{accesses}
use cam_alias_checker.Libcam.MemSet.Contiguous.{
  IsContiguous, IsContiguous-append, IsContiguous-le, accesses-append, length-accesses,
}
use cam_alias_checker.Libcam.MemoryParser.Prefix.{memset-feed}
use cam_alias_checker.Libcam.Streamer.{
  MemoryTraceStreamer, end_of, get_num_buffered_instances, split_chunk, finish_chunk,
  get_next_chunk,
}
use cam_alias_checker.Libcam.Streamer.Parse.{unread}
use cam_alias_checker.Libcam.Streamer.Split.{
  IsSplitAt, back_end-IsContiguous, get_num_buffered_instances-IsContiguous, split_chunk-IsSplitAt,
  split_all,
}
use cam_alias_checker.Libcam.Streamer.Pending.{
  more, pending, IsStreamer, IsChunk, parsed, parsed-IsRead,
}

module _ (u : Uninit) where
  -- the streamer after a chunk
  abbrev after : (c r : MemSet) → MemoryTraceStreamer → MemoryTraceStreamer
  after c r p = record p {
    remainder = r;
    mtl = record p.mtl { start_instance = (end_of c + 1) % word };
  }

  -- The branch where the entries read have the instances asked for.
  finish_chunk-enough :
      (a n m : ℕ) (allow : Bool) (p : MemoryTraceStreamer) (es : MemSet)
      → IsContiguous a m es
      → 0 < n
      → a + n ≤ m
      → (c : MemSet) × (r : MemSet) × (finish_chunk u n allow p es ≡ some (c, after c r p))
        × IsSplitAt a (a + n) m es c r
  unfolding finish_chunk
  finish_chunk-enough a n m allow p [] v pos le = absurd (omega (arith, v))
  finish_chunk-enough a n m allow p (e ∷ es) v pos le =
      let (_, small, _) = back_end-IsContiguous e es a m v in
      let last : sub_word ((e.start + n) % word) 1 ≡ a + n - 1 = omega (arith, v.0) in
      let s = split_chunk u (a + n - 1) (e ∷ es) in
      let h : IsSplitAt a (a + n) m (e ∷ es) s.0 s.1 =
        subst (λ k. IsSplitAt a k m (e ∷ es) s.0 s.1)
          (let q : a + n - 1 + 1 ≡ a + n = omega arith in q)
          (split_chunk-IsSplitAt u a m (a + n - 1) (e ∷ es) v (omega arith) (omega arith)) in
      let count = get_num_buffered_instances-IsContiguous a (a + n) s.0 h.front in
      let found : (allow || get_num_buffered_instances s.0 == n) ≡ true = ground (arith, count) in
      (s.0, s.1, rw (last, found) refl, h)

  -- A chunk that is cut off has the first instances, and the streamer has the others.
  after-IsChunk :
      (a n b m : ℕ) (s p : MemoryTraceStreamer) (c r : MemSet)
      → IsContiguous m b (more u p)
      → (pending u s ≡ p.mtl.memset ++ more u p)
      → (p.status ≡ false → unread p.parser ≡ [])
      → IsSplitAt a (a + n) m p.mtl.memset c r
      → IsChunk u a n b s c (after c r p)
  after-IsChunk a n b m s p c r later total closed h =
      let t = after c r p in
      let same : more u t ≡ more u p =
        memset-feed u (unread p.parser) [] p.mtl.num_instances_required ((end_of c + 1) % word)
          p.mtl in
      let all : accesses (pending u s) ≡ accesses c ++ accesses (pending u t) =
        ap accesses total
        ∙ accesses-append p.mtl.memset (more u p)
        ∙ ap (λ z. z ++ accesses (more u p)) (sym h.same)
        ∙ append_assoc (accesses c) (accesses r) (accesses (more u p))
        ∙ ap (λ z. accesses c ++ (accesses r ++ accesses z)) (sym same)
        ∙ ap (λ z. accesses c ++ z) (sym (accesses-append r (more u t))) in
      let size : length (accesses c) ≡ n = omega (arith, length-accesses a (a + n) c h.front) in
      record {
        chunk = h.front;
        next = record {
          closed = closed;
          contiguous =
              IsContiguous-append (a + n) m b r (more u t) h.rest
                (subst (λ z. IsContiguous m b z) (sym same) later);
        };
        same =
            sym (take_append n (accesses c) (accesses (pending u t)) size) ∙ ap (take n) (sym all);
        rest =
            sym (drop_append n (accesses c) (accesses (pending u t)) size) ∙ ap (drop n) (sym all);
      }

  get_next_chunk-parsed :
      (n : ℕ) (allow : Bool) (s : MemoryTraceStreamer)
      → 0 < n
      → get_next_chunk u n allow s ≡ finish_chunk u n allow (parsed u n s) (parsed u n s).mtl.memset
  unfolding get_next_chunk
  get_next_chunk-parsed n allow s pos = let e : (n == 0) ≡ false = ground arith in rw e refl

  pub nothing-IsChunk :
      (a b : ℕ) (s : MemoryTraceStreamer) → IsStreamer u a b s → IsChunk u a 0 b s [] s
  unfolding accesses
  nothing-IsChunk a b s v =
      let z : a ≡ a + 0 = omega arith in
      record { chunk = z; next = subst (λ k. IsStreamer u k b s) z v; same = refl; rest = refl }

  -- A chunk of instances that are still to come: no assertion fails, the chunk has the first of the
  -- accesses still to come, as many as are asked for, and the streamer has the others, both with
  -- instances numbered without a gap.
  pub get_next_chunk-IsChunk :
      (a n b : ℕ) (allow : Bool) (s : MemoryTraceStreamer)
      → IsStreamer u a b s
      → a + n ≤ b
      → (c : MemSet) × (s' : MemoryTraceStreamer) × (get_next_chunk u n allow s ≡ some (c, s'))
        × IsChunk u a n b s c s'
  unfolding get_next_chunk
  get_next_chunk-IsChunk a zero b allow s v le = ([], s, refl, nothing-IsChunk a b s v)
  get_next_chunk-IsChunk a (suc n) b allow s v le =
      let p = parsed u (suc n) s in
      let h = parsed-IsRead u a (suc n) b s (omega arith) v in
      let enough : a + suc n ≤ h.middle = elim h.enough [
        | inl e ↦ e
        | inr e ↦ omega (arith, e, le)
      ] in
      let (c, r, e, w) =
        finish_chunk-enough a (suc n) h.middle allow p p.mtl.memset h.front (omega arith) enough in
      (
        c,
        after c r p,
        get_next_chunk-parsed (suc n) allow s (omega arith) ∙ e,
        after-IsChunk a (suc n) b h.middle s p c r h.later h.total h.closed w,
      )

  abbrev cut_off :
      (allow : Bool) (n : ℕ)
      → MemoryTraceStreamer
      → MemSet × MemSet
      → Option (MemSet × MemoryTraceStreamer)
  cut_off allow n p c =
      if allow || get_num_buffered_instances c.0 == n then some (c.0, after c.0 c.1 p) else none

  -- The branch where the file ends before the instances asked for.
  finish_chunk-short :
      (a n m : ℕ) (p : MemoryTraceStreamer) (es : MemSet)
      → IsContiguous a m es
      → a < m
      → m < a + n
      → a + n < word
      → (finish_chunk u n false p es ≡ none)
        × (finish_chunk u n true p es ≡ some (es, after es [] p))
  unfolding finish_chunk
  finish_chunk-short a n m p [] v lt short small = absurd (omega (arith, v, lt))
  finish_chunk-short a n m p (e ∷ es) v lt short small =
      let last : sub_word ((e.start + n) % word) 1 ≡ a + n - 1 = omega (arith, v.0) in
      let whole = split_all u a m (a + n - 1) (e ∷ es) v (omega arith) in
      let count = get_num_buffered_instances-IsContiguous a m (e ∷ es) v in
      let fewer : (get_num_buffered_instances (e ∷ es) == n) ≡ false = ground (arith, count) in
      let finished = λ (allow : Bool).
        ap (λ k. cut_off allow n p (split_chunk u k (e ∷ es))) last
        ∙ ap (cut_off allow n p) whole in
      (finished false ∙ rw fewer refl, finished true)

  -- Asking for more instances than are still to come, but for some: where the streamer may not
  -- overshoot the assertion fails, and otherwise the chunk has all that are still to come.
  pub get_next_chunk-exhausted :
      (a n b : ℕ) (s : MemoryTraceStreamer)
      → IsStreamer u a b s
      → a < b
      → b < a + n
      → a + n < word
      → (get_next_chunk u n false s ≡ none)
        × (c : MemSet) × (s' : MemoryTraceStreamer) × (get_next_chunk u n true s ≡ some (c, s'))
        × IsChunk u a (b - a) b s c s'
  unfolding accesses
  get_next_chunk-exhausted a n b s v lt short small =
      let p = parsed u n s in
      let pos : 0 < n = omega arith in
      let h = parsed-IsRead u a n b s pos v in
      let ended : h.middle ≡ b = elim h.enough [
        | inl e ↦ omega (arith, e, IsContiguous-le h.middle b (more u p) h.later)
        | inr e ↦ e
      ] in
      let es = p.mtl.memset in
      let front : IsContiguous a b es = subst (λ k. IsContiguous a k es) ended h.front in
      let all : b ≡ a + (b - a) = omega arith in
      let (failed, cut) = finish_chunk-short a n b p es front lt short small in
      (
        get_next_chunk-parsed n false s pos ∙ failed,
        es,
        after es [] p,
        get_next_chunk-parsed n true s pos ∙ cut,
        after-IsChunk a (b - a) b h.middle s p es [] h.later h.total h.closed record {
          front = subst (λ k. IsContiguous a k es) all front;
          rest = sym all ∙ sym ended;
          same = append-nil (accesses es);
        },
      )
