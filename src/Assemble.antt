-- ===== src/Assemble.antt =====
-- internal/zchunk/download.go: `AssembleBody`, `remoteRuns` and `verifyWriteChunk`. What the
-- goroutines leave in `results` is a parameter here.
pub mod Runs
pub mod Pieces
pub mod Rounds
pub mod Complete
pub mod Checked
pub mod Unfetched
pub mod Pool
use zchunk.Prelude.{
  ℕ, zero, suc, ◌+◌, ◌%◌, Bool, true, false, not, ◌&&◌, Option, none, some, List, [], ◌∷◌, ◌++◌,
  ◌==◌, leb, if◌then◌else◌, length, take, drop, get_elem?,
}
use zchunk.Go.Error.{Error, Context, unexpected_eof, got_bytes, digest_mismatch, wrap}
use zchunk.Go.Result.{Result, ok, err, panic, stuck, guard, make, in_context, u64_mod, ◌>>=◌, ◌>>◌}
use zchunk.Go.Reader.{Bytes}
use zchunk.Go.Writer.{Writer, Written, write}
use zchunk.Checksum.{Hashes, size, sum}
use zchunk.Lead.{equal}
use zchunk.Index.{IndexEntry, Index}
use zchunk.File.{or_nil}
use zchunk.Header.{RangeReader}
use zchunk.Delta.{ChunkSource, DeltaPlan}
use zchunk.Extract.{or_return}

pub record RemoteRun : Type 0 where
  pub offset : ℕ
  pub size : ℕ
  pub first : ℕ
  pub count : ℕ

-- `!Local && Length > 0`
unfoldable pub is_fetched : ChunkSource → Bool
is_fetched s = not s.is_local && not (s.size == 0)

-- One round of the inner loop of `remoteRuns`, the first one after `run := …`.
abbrev pub extend : Option RemoteRun → ℕ → ChunkSource → RemoteRun
extend none i s = record { offset = s.offset; size = s.size % u64_mod; first = i; count = 1 }
extend (some r) i s = record r { size = (r.size + s.size) % u64_mod; count = r.count + 1 }

-- `runs = append(runs, run)` behind the inner loop.
abbrev pub finished : Option RemoteRun → List RemoteRun
finished none = []
finished (some r) = r ∷ []

-- Both loops, from source `i` on, with the run that is being built.
unfoldable pub runs_from : Option RemoteRun → ℕ → List ChunkSource → List RemoteRun
runs_from run i [] = finished run
runs_from run i (s ∷ ss) = elim (is_fetched s) [
  | true ↦ runs_from (some (extend run i s)) (i + 1) ss
  | false ↦ finished run ++ runs_from none (i + 1) ss
]

unfoldable pub remote_runs : DeltaPlan → List RemoteRun
remote_runs p = runs_from none 0 p.sources

-- What a worker does for its run.
unfoldable pub fetch_run : RangeReader → RemoteRun → Result Bytes
fetch_run remote run = do
  fetched ← remote run.offset run.size
  guard (length fetched == run.size) (got_bytes (length fetched) run.size)
  ok fetched

-- `results[k]` of a run, when it is ready. There is no run behind the last. A panic of a worker, which
-- ends the program at once, shows when its result is taken.
unfoldable pub result_of : RangeReader → List RemoteRun → ℕ → Result Bytes
result_of remote [] k = panic
result_of remote (r ∷ rs) zero = fetch_run remote r
result_of remote (r ∷ rs) (suc k) = result_of remote rs k

-- `runAt[i]`, where run `k` is the first of the list; a missing key reads as 0.
unfoldable pub run_at : ℕ → ℕ → List RemoteRun → ℕ
run_at i k [] = 0
run_at i k (r ∷ rs) = if r.first == i then k else run_at i (k + 1) rs

-- `local.ReadAt(data, off)`: the bytes that were read, and the error.
abbrev pub ReaderAt : Type 0
ReaderAt = ℕ → ℕ → Bytes × Option Error

abbrev or_unexpected_eof : Option Error → Error
or_unexpected_eof none = unexpected_eof
or_unexpected_eof (some e) = e

unfoldable pub read_local : ReaderAt → ℕ → ChunkSource → Result Bytes
read_local local i s = do
  make s.size
  guard (length (local s.offset s.size).0 == s.size)
      (wrap (Context.local_chunk i) (or_unexpected_eof (local s.offset s.size).1))
  ok (local s.offset s.size).0

-- `data[pos : pos+n]`
unfoldable pub cut : Bytes → ℕ → ℕ → Result Bytes
cut b pos n = if leb (pos + n) (length b) then ok (take n (drop pos b)) else panic

-- An index expression, which panics out of range.
abbrev pub in_range {ℓ} : {A : Type ℓ} → Option A → Result A
in_range none = panic
in_range (some a) = ok a

unfoldable pub verify_write : Hashes → Index → ℕ → Bytes → Writer → Bytes → Written
verify_write h target i piece w out = or_return out 0 (in_range (get_elem? target.chunks i)) λ e.
    or_return out 0
      (guard (equal (or_nil (sum h target.chunk_checksum_type piece)) e.digest) (digest_mismatch i))
      λ _.
        let done = write w out piece in
        record done { result = in_context (Context.write_chunk i) done.result }

-- `n, err := verifyWriteChunk(…)`, `written += …` and the return on an error; `k` goes on.
unfoldable pub write_piece :
    Hashes → Index → Writer → ℕ → Option Bytes → Bytes → ℕ → (Bytes → ℕ → Written) → Written
unfolding verify_write
write_piece h target w i none out n k = k out n
write_piece h target w i (some piece) out n k =
    let done = verify_write h target i piece w out in
    let n' = (n + done.count) % u64_mod in or_return done.out n' done.result λ _. k done.out n'

-- What is left of the run that is being split: its bytes, the position in them, and its chunks.
pub record Pending : Type 0 where
  pub fetched : Bytes
  pub pos : ℕ
  pub left : ℕ

abbrev pub idle : Pending
idle = record { fetched = []; pos = 0; left = 0 }

-- One round of the loop over a run's chunks, when `left` are left behind it.
unfoldable pub split : Bytes → ℕ → ℕ → ChunkSource → Result (Option Bytes × Pending)
split b pos left s = do
  piece ← cut b pos s.size
  ok (some piece, record { fetched = b; pos = (pos + s.size) % u64_mod; left = left })

-- The rounds of that loop; a run without chunks would leave `i` where it is for ever.
unfoldable pub split_first : Bytes → ℕ → ChunkSource → Result (Option Bytes × Pending)
unfolding split
split_first b zero s = stuck
split_first b (suc left) s = split b 0 left s

module _ (local : ReaderAt) (runs : List RemoteRun) (results : ℕ → Result Bytes) where
  -- The `default` case: the start of a run.
  unfoldable pub start_run : ℕ → ChunkSource → Result (Option Bytes × Pending)
  unfolding split_first
  start_run i s = do
    run ← in_range (get_elem? runs (run_at i 0 runs))
    fetched ← in_context (Context.fetch_chunk i) (results (run_at i 0 runs))
    split_first fetched run.count s

  -- The `switch`, outside a run.
  unfoldable pub from_source : ℕ → ChunkSource → Result (Option Bytes × Pending)
  unfolding start_run
  from_source i s =
      if s.size == 0
      then ok (none, idle)
      else if s.is_local
      then (read_local local i s >>= λ piece. ok (some piece, idle))
      else start_run i s

  -- The bytes to write for source `i`, if any.
  unfoldable pub next_piece : Bytes → ℕ → ℕ → ℕ → ChunkSource → Result (Option Bytes × Pending)
  unfolding split from_source
  next_piece b pos zero i s = from_source i s
  next_piece b pos (suc left) i s = split b pos left s

  module _ (h : Hashes) (target : Index) (w : Writer) where
    -- The main loop, from source `i` on, with the bytes written so far.
    unfoldable pub assemble_from : List ChunkSource → ℕ → Pending → Bytes → ℕ → Written
    unfolding next_piece write_piece
    assemble_from [] i st out n = record {
      out = out;
      count = n;
      result = elim st.left [ zero ↦ ok tt | suc left ↦ panic ];
    }
    assemble_from (s ∷ ss) i st out n =
        or_return out n (next_piece st.fetched st.pos st.left i s)
          λ p. write_piece h target w i p.0 out n (assemble_from ss (i + 1) p.1)

-- With what the workers have left in `results`.
unfoldable pub assemble_with :
    Hashes → DeltaPlan → Index → ReaderAt → (ℕ → Result Bytes) → Writer → Bytes → Written
unfolding assemble_from
assemble_with h p target local results w out =
    or_return out 0 (size target.chunk_checksum_type)
      λ _. assemble_from local (remote_runs p) results h target w p.sources 0 idle out 0

unfoldable pub assemble_body :
    Hashes → DeltaPlan → Index → ReaderAt → RangeReader → Writer → Bytes → Written
unfolding assemble_with
assemble_body h p target local remote w out =
    assemble_with h p target local (result_of remote (remote_runs p)) w out
