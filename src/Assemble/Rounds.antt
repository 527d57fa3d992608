-- ===== src/Assemble/Rounds.antt =====
-- The main loop's next piece, whatever the source of the chunk is.
use mathlib.Core.Path.{subst}
use zchunk.Prelude.{
  ℕ, zero, suc, ◌+◌, ◌%◌, ◌≤◌, ◌<◌, ◌≡◌, ◌∙◌, sym, ap, refl, inl, inr, true, false, Bool-cases,
  none, some, List, [], ◌∷◌, ◌++◌, ◌==◌, ==_iff, length, length-append, drop, take, take-append,
  drop-append, length-zero, flatten, append_assoc, get_elem?, arith,
}
use zchunk.Go.Result
use zchunk.Go.Result.{Result, ok, max_int, u64_mod}
use zchunk.Go.Reader.{Bytes}
use zchunk.Checksum.{ChecksumType, Hashes}
use zchunk.Index.{IndexEntry}
use zchunk.Header.{RangeReader}
use zchunk.Header.Remote.{Serves}
use zchunk.Delta.{ChunkSource}
use zchunk.Delta.Plan.{Sourced}
use zchunk.Assemble.{
  RemoteRun, ReaderAt, is_fetched, extend, runs_from, fetch_run, result_of, run_at, read_local,
  idle, split, split_first, start_run, from_source, next_piece,
}
use zchunk.Assemble.Runs.{
  Sized, Covers, Grown, grow, Before, Before-weaken, Before-concat, run_at-append, get_elem?-append,
  result_of-append,
}
use zchunk.Assemble.Pieces.{fetched-nonempty, Piece, Ready, Gets, idle-Ready, split-Gets}

Covers-prefix :
    (n : ℕ) (ss : List ChunkSource) (ps : List Bytes) (b : Bytes)
    → Covers n ss ps b
    → (tail : Bytes) × (flatten ps ≡ b ++ tail)
Covers-prefix zero ss ps b e = (flatten ps, ap (λ x. x ++ flatten ps) (sym e))
Covers-prefix (suc n) (s ∷ ss) (p ∷ ps) b (_, rest, e, more) =
    let (tail, split) = Covers-prefix n ss ps rest more in
    (tail, ap (λ x. p ++ x) split ∙ sym (append_assoc p rest tail) ∙ ap (λ x. x ++ tail) (sym e))
Covers-prefix (suc n) [] ps b no_way = absurd no_way
Covers-prefix (suc n) (s ∷ ss) [] b no_way = absurd no_way

-- A range of the body that stands behind `pre`.
range-append :
    (remote : RangeReader) (body pre b tail : Bytes)
    → Serves remote body
    → body ≡ pre ++ (b ++ tail)
    → 0 < length b
    → remote (length pre) (length b) ≡ ok b
range-append remote body pre b tail serves e some_bytes =
    let inside : length pre + length b ≤ length body =
      omega (arith, ap length e, length-append pre (b ++ tail), length-append b tail) in
    serves.ranges (length pre) (length b) some_bytes inside
    ∙ ap ok (
        ap (λ x. take (length b) (drop (length pre) x)) e
        ∙ ap (take (length b)) (drop-append pre (b ++ tail))
        ∙ take-append b tail)

fetch_run-append :
    (remote : RangeReader) (body pre b tail : Bytes) (r : RemoteRun)
    → Serves remote body
    → body ≡ pre ++ (b ++ tail)
    → 0 < length b
    → r.offset ≡ length pre
    → r.size ≡ length b
    → fetch_run remote r ≡ ok b
unfolding fetch_run
fetch_run-append remote body pre b tail r serves e some_bytes offset size = rw (
  offset,
  size,
  range-append remote body pre b tail serves e some_bytes,
  (==_iff (length b) (length b)).1 refl,
)

module _ (remote : RangeReader) (body : Bytes) (few : length body ≤ max_int)
    (serves : Serves remote body) (local : ReaderAt) (all : List RemoteRun) where
  start_run-Gets :
      (s : ChunkSource) (ss : List ChunkSource) (p : Bytes) (ps : List Bytes) (i : ℕ) (pre : Bytes)
      (past : List RemoteRun)
      → is_fetched s ≡ true
      → s.offset ≡ length pre
      → s.size ≡ length p
      → Sized ss ps
      → body ≡ pre ++ (p ++ flatten ps)
      → all ≡ past ++ runs_from none i (s ∷ ss)
      → Before i past
      → Gets all ss ps i p (start_run local all (result_of remote all) i s)
  unfolding start_run split_first runs_from
  start_run-Gets s ss p ps i pre past fetched offset long sized whole runs before =
      let total : length body ≡ length pre + (length p + length (flatten ps)) = omega (
        arith,
        ap length whole,
        length-append pre (p ++ flatten ps),
        length-append p (flatten ps),
      ) in
      let fits : s.size % u64_mod ≡ length p = omega arith in
      let g : Grown (extend none i s) (i + 1) ss ps =
        grow (extend none i s) (i + 1) ss ps sized (omega arith) in
      let later : List RemoteRun = runs_from none (i + 1 + g.more) (drop g.more ss) in
      let b : Bytes = p ++ g.bytes in
      let split_runs : all ≡ past ++ (g.run ∷ later) =
        runs ∙ ap (λ l. past ++ l) (rw (fetched, runs_from) g.runs) in
      let found : run_at i 0 all ≡ length past =
        ap (run_at i 0) split_runs
        ∙ run_at-append i 0 past g.run later before g.same_first
        ∙ omega arith in
      let there : get_elem? all (length past) ≡ some g.run =
        ap (λ l. get_elem? l (length past)) split_runs ∙ get_elem?-append past g.run later in
      let (tail, rest) = Covers-prefix g.more ss ps g.bytes g.covers in
      let cut_body : body ≡ pre ++ (b ++ tail) =
        whole ∙ ap (λ x. pre ++ x) (ap (λ x. p ++ x) rest ∙ sym (append_assoc p g.bytes tail)) in
      let long_run : g.run.size ≡ length b = omega (arith, g.grown_size, length-append p g.bytes) in
      let result : result_of remote all (length past) ≡ ok b =
        ap (λ l. result_of remote l (length past)) split_runs
        ∙ result_of-append remote past g.run later
        ∙ fetch_run-append remote body pre b tail g.run serves cut_body
            (omega (arith, fetched-nonempty s fetched, length-append p g.bytes))
            (g.same_offset ∙ offset) long_run in
      let count : g.run.count ≡ suc g.more = omega (arith, g.grown_count) in
      rw (found, there, result, count)
        (split-Gets all s ss p ps i b g.bytes 0 g.more (past ++ g.run ∷ []) fetched long
          (omega (arith, ap length cut_body, length-append pre (b ++ tail), length-append b tail))
          refl g.covers
          (split_runs
            ∙ sym (append_assoc past (g.run ∷ []) later)
            ∙ ap (λ j. (past ++ g.run ∷ []) ++ runs_from none j (drop g.more ss)) (omega arith))
          (Before-concat (i + suc g.more) past g.run
            (Before-weaken i (i + suc g.more) past (omega arith) before)
            (omega (arith, g.same_first))))

  from_source_fetched :
      (i : ℕ) (s : ChunkSource)
      → (s.size == 0) ≡ false
      → s.is_local ≡ false
      → from_source local all (result_of remote all) i s
        ≡ start_run local all (result_of remote all) i s
  unfolding from_source
  from_source_fetched i s some_bytes away = simp (some_bytes, away)

  module _ (h : Hashes) (t : ChecksumType) (es : List IndexEntry) where
    from_source-Gets :
        (e : IndexEntry) (s : ChunkSource) (ss : List ChunkSource) (p : Bytes) (ps : List Bytes)
        (i : ℕ) (pre : Bytes) (past : List RemoteRun)
        → Sourced es e i (length pre) s
        → Piece h t local es e p
        → Sized ss ps
        → body ≡ pre ++ (p ++ flatten ps)
        → all ≡ past ++ runs_from none i (s ∷ ss)
        → Before i past
        → Gets all ss ps i p (from_source local all (result_of remote all) i s)
    unfolding from_source is_fetched read_local
    from_source-Gets e s ss p ps i pre past (_, (long, (_, place))) piece sized whole runs before =
        elim (Bool-cases (s.size == 0)) [
          | inl empty ↦ rw empty (record {
            piece = none;
            state = idle;
            gets = refl;
            same_bytes =
                inr (refl, length-zero p (piece.whole ∙ sym long ∙ (==_iff s.size 0).0 empty));
            ready = idle-Ready all past s ss ps i (ground arith) runs before;
          })
          | inr some_bytes ↦ elim (place (ground arith)) [
            | inl (here, match) ↦
                let copy : local s.offset s.size ≡ (p, none) =
                  ap (local s.offset) long
                  ∙ piece.copies (ground (arith, some_bytes, long)) s.offset match in
                let same : (length p == s.size) ≡ true =
                  (==_iff (length p) s.size).1 (piece.whole ∙ sym long) in
                let skipped : is_fetched s ≡ false = ground arith in
                let fits : s.size ≤ max_int = omega (
                  arith,
                  ap length whole,
                  length-append pre (p ++ flatten ps),
                  length-append p (flatten ps),
                  piece.whole,
                ) in
                rw (some_bytes, here, Result.make_fits s.size fits, copy, same)
                  (record {
                    piece = some p;
                    state = idle;
                    gets = refl;
                    same_bytes = inl (refl, ground (arith, piece.whole));
                    ready = idle-Ready all past s ss ps i skipped runs before;
                  })
            | inr (away, (offset, _)) ↦
                let fetched : is_fetched s ≡ true = ground arith in
                subst (Gets all ss ps i p) (sym (from_source_fetched i s some_bytes away)) (
                  start_run-Gets s ss p ps i pre past fetched offset (long ∙ sym piece.whole) sized
                    whole runs before)
          ]
        ]

    -- The piece that the loop gets for the next source is the chunk's, on each path.
    pub next_piece-Gets :
        (e : IndexEntry) (s : ChunkSource) (ss : List ChunkSource) (p : Bytes) (ps : List Bytes)
        (i : ℕ) (pre b : Bytes) (pos left : ℕ)
        → Sourced es e i (length pre) s
        → Piece h t local es e p
        → Sized ss ps
        → body ≡ pre ++ (p ++ flatten ps)
        → Ready all (s ∷ ss) (p ∷ ps) i (record { fetched = b; pos = pos; left = left })
        → Gets all ss ps i p (next_piece local all (result_of remote all) b pos left i s)
    unfolding next_piece
    next_piece-Gets e s ss p ps i pre b pos zero sourced piece sized whole ready =
        from_source-Gets e s ss p ps i pre ready.past sourced piece sized whole
          (ready.runs ∙ ap (λ j. ready.past ++ runs_from none j (s ∷ ss)) (omega arith))
          (Before-weaken (i + 0) i ready.past (omega arith) ready.before)
    next_piece-Gets e s ss p ps i pre b pos (suc left) sourced piece sized whole ready =
        let (fetched, rest, front, covers) = ready.covers in
        split-Gets all s ss p ps i b rest pos left ready.past fetched
          (sourced.1.0 ∙ sym piece.whole) ready.few front covers ready.runs ready.before
