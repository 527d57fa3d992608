-- ===== src/Assemble/Complete.antt =====
-- The body that `assemble_body` puts together.
use mathlib.Core.Path.{subst}
use zchunk.Prelude.{
  ℕ, zero, suc, ◌+◌, ◌%◌, ◌≤◌, ◌<◌, ◌≡◌, ◌∙◌, sym, ap, refl, inl, inr, true, some, List, [], ◌∷◌,
  ◌++◌, length, length-append, flatten, append_assoc, append-nil, get_elem?, arith,
}
use zchunk.Go.Result.{Result, ok, max_int, u64_mod}
use zchunk.Go.Reader.{Bytes}
use zchunk.Go.Writer.{Written, write, buffer}
use zchunk.Checksum.{ChecksumType, Hashes, size, sum}
use zchunk.Lead.{equal}
use zchunk.Lead.RoundTrip.{equal_iff}
use zchunk.Index.{IndexEntry, Index}
use zchunk.File.{or_nil}
use zchunk.Header.{RangeReader}
use zchunk.Header.Remote.{Serves}
use zchunk.Delta.{ChunkSource, DeltaPlan}
use zchunk.Delta.Plan.{Sourced, Follows, done, next}
use zchunk.Extract.RoundTrip.{written-eq}
use zchunk.Assemble.{
  RemoteRun, ReaderAt, remote_runs, result_of, Pending, idle, verify_write, write_piece,
  assemble_from, assemble_with, assemble_body,
}
use zchunk.Assemble.Runs.{Sized, Covers}
use zchunk.Assemble.Pieces.{Piece, Ready}
use zchunk.Assemble.Rounds.{next_piece-Gets}

-- The target's chunks and their bytes, one for one.
abbrev pub Pieces :
    Hashes → ChecksumType → ReaderAt → List IndexEntry → List IndexEntry → List Bytes → Type 0
Pieces h t local es [] [] = Unit
Pieces h t local es (e ∷ ts) (p ∷ ps) = Piece h t local es e p × Pieces h t local es ts ps
Pieces h t local es [] (p ∷ ps) = ⊥
Pieces h t local es (e ∷ ts) [] = ⊥

Follows-Sized :
    (h : Hashes) (t : ChecksumType) (local : ReaderAt) (es : List IndexEntry) (ps : List Bytes)
    {ts : List IndexEntry} {ss : List ChunkSource} {i off : ℕ}
    → Follows es ts ss i off
    → Pieces h t local es ts ps
    → Sized ss ps
Follows-Sized h t local es [] done pieces = tt
Follows-Sized h t local es (p ∷ ps) done no_way = absurd no_way
Follows-Sized h t local es [] (next e s sourced later) no_way = absurd no_way
Follows-Sized h t local es (p ∷ ps) (next e s sourced later) (piece, pieces) =
    (sourced.1.0 ∙ sym piece.whole, Follows-Sized h t local es ps later pieces)

entry_at :
    (front : List IndexEntry) (e : IndexEntry) (back : List IndexEntry)
    → get_elem? (front ++ e ∷ back) (length front) ≡ some e
entry_at [] e back = refl
entry_at (x ∷ front) e back = entry_at front e back

verify_write-Piece :
    (h : Hashes) (target : Index) (local : ReaderAt) (es : List IndexEntry) (e : IndexEntry)
    (p : Bytes) (i : ℕ) (out : Bytes)
    → get_elem? target.chunks i ≡ some e
    → Piece h target.chunk_checksum_type local es e p
    → 0 < length p
    → verify_write h target i p buffer out
      ≡ record { out = out ++ p; count = length p % u64_mod; result = ok tt }
unfolding verify_write write
verify_write-Piece h target local es e p i out there piece some_bytes =
    let same : equal (or_nil (sum h target.chunk_checksum_type p)) e.digest ≡ true =
      (equal_iff _ _).1 (piece.digest (omega (arith, piece.whole))) in
    rw (there, same)

-- Behind the last source no run is open.
none_left :
    (left : ℕ) (b : Bytes)
    → Covers left [] [] b
    → ◌≡◌ {A = Result (Unit {0})} (elim left [ zero ↦ ok tt | suc more ↦ Result.panic ]) (ok tt)
none_left zero b covers = refl
none_left (suc left) b no_way = absurd no_way

module _ (h : Hashes) (target : Index) (local : ReaderAt) (es : List IndexEntry)
    (remote : RangeReader) (body : Bytes) (few : length body ≤ max_int)
    (serves : Serves remote body) (all : List RemoteRun) where
  -- What the loop writes from one source on.
  assembled : Bytes → Bytes → ℕ → Written
  assembled rest out n = record {
    out = out ++ rest;
    count = (n + length rest) % u64_mod;
    result = ok tt;
  }

  assemble_from-Pieces :
      (ps : List Bytes) {ts : List IndexEntry} {ss : List ChunkSource} {i off : ℕ} (st : Pending)
      (pre : Bytes) (front : List IndexEntry) (out : Bytes) (n : ℕ)
      → Follows es ts ss i off
      → Pieces h target.chunk_checksum_type local es ts ps
      → target.chunks ≡ front ++ ts
      → length front ≡ i
      → off ≡ length pre
      → body ≡ pre ++ flatten ps
      → n ≡ n % u64_mod
      → Ready all ss ps i st
      → assemble_from local all (result_of remote all) h target buffer ss i st out n
        ≡ assembled (flatten ps) out n
  unfolding assemble_from assembled write_piece
  assemble_from-Pieces [] st pre front out n done pieces chunks index offset whole fits ready =
      rw (none_left st.left _ ready.covers)
        (written-eq (ok tt) (sym (append-nil out)) (omega arith))
  assemble_from-Pieces (p ∷ ps) st pre front out n done no_way chunks index offset whole fits
        ready =
      absurd no_way
  assemble_from-Pieces [] st pre front out n (next e s sourced later) no_way chunks index offset
        whole fits ready =
      absurd no_way
  assemble_from-Pieces (p ∷ ps) {i} {off} st pre front out n (next e s {ts} {ss} sourced later)
        (piece, pieces) chunks index offset whole fits ready =
      let sourced' : Sourced es e i (length pre) s =
        subst (λ o. Sourced es e i o s) offset sourced in
      let sized = Follows-Sized h target.chunk_checksum_type local es ps later pieces in
      let g =
        next_piece-Gets remote body few serves local all h target.chunk_checksum_type es e s ss p ps
          i pre st.fetched st.pos st.left sourced' piece sized whole ready in
      let there : get_elem? target.chunks i ≡ some e =
        ap (λ l. get_elem? l i) chunks
        ∙ ap (get_elem? (front ++ e ∷ ts)) (sym index)
        ∙ entry_at front e ts in
      let ih = λ (out' : Bytes) (n' : ℕ) (fits' : n' ≡ n' % u64_mod).
        assemble_from-Pieces ps g.state (pre ++ p) (front ++ e ∷ []) out' n' later pieces
          (chunks ∙ sym (append_assoc front (e ∷ []) ts))
          (omega (arith, length-append front (e ∷ [])))
          (omega (
            arith,
            ap length whole,
            length-append pre (p ++ flatten ps),
            length-append p (flatten ps),
            length-append pre p,
            piece.whole,
          ))
          (whole ∙ sym (append_assoc pre p (flatten ps))) fits' g.ready in
      rw g.gets (elim g.same_bytes [
        | inl (written, some_bytes) ↦
            rw (written, verify_write-Piece h target local es e p i out there piece some_bytes)
              (ih (out ++ p) ((n + length p % u64_mod) % u64_mod) (omega arith)
                ∙ written-eq (ok tt) (append_assoc out p (flatten ps))
                    (omega (arith, length-append p (flatten ps))))
        | inr (nothing, empty) ↦ rw (nothing, empty) (ih out n fits)
      ])

  assemble_with-Pieces :
      (p : DeltaPlan) (ps : List Bytes) {m : ℕ} (out : Bytes)
      → size target.chunk_checksum_type ≡ ok m
      → all ≡ remote_runs p
      → Follows es target.chunks p.sources 0 0
      → Pieces h target.chunk_checksum_type local es target.chunks ps
      → body ≡ flatten ps
      → assemble_with h p target local (result_of remote all) buffer out
        ≡ record { out = out ++ body; count = length body % u64_mod; result = ok tt }
  unfolding assemble_with assembled remote_runs
  assemble_with-Pieces p ps out known runs follows pieces whole =
      rw (known, ← runs)
        (assemble_from-Pieces ps idle [] [] out 0 follows pieces refl refl refl whole refl
            (record { past = []; runs = runs; before = tt; covers = refl; few = omega arith })
          ∙ written-eq (ok tt) (ap (λ b. out ++ b) (sym whole)) (omega (arith, ap length whole)))

-- `AssembleBody`, with the sources that a plan has for the target and on a writer that never fails,
-- writes exactly the target's body and returns its length as an int64, if the target's checksum type
-- is known, the body fits a slice, the range reader gives every non-empty range of the body, and the
-- chunks make up the body: each has the length that its entry says and, if it is not empty, the
-- digest, and the local reader gives it, without an error, at every offset where a non-empty local
-- chunk of its digest stands.
pub assemble_body-Pieces :
    (h : Hashes) (target : Index) (local : ReaderAt) (es : List IndexEntry) (remote : RangeReader)
    (p : DeltaPlan) (ps : List Bytes) (body out : Bytes) {m : ℕ}
    → size target.chunk_checksum_type ≡ ok m
    → length body ≤ max_int
    → Serves remote body
    → Follows es target.chunks p.sources 0 0
    → Pieces h target.chunk_checksum_type local es target.chunks ps
    → body ≡ flatten ps
    → assemble_body h p target local remote buffer out
      ≡ record { out = out ++ body; count = length body % u64_mod; result = ok tt }
unfolding assemble_body
assemble_body-Pieces h target local es remote p ps body out known few serves follows pieces whole =
    assemble_with-Pieces h target local es remote body few serves (remote_runs p) p ps out known
      refl follows pieces whole
