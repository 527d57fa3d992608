-- ===== src/Tests/Fetches.antt =====
-- The theorems on the assembly of a body, applied to a target of three chunks: an empty one, one to
-- fetch and one that the local file has.
use zchunk.Prelude.{
  ℕ, ◌≡◌, ◌≤◌, ◌<◌, ◌+◌, ◌%◌, refl, List, [], ◌∷◌, ◌++◌, true, false, some, none, leb→le, length,
  flatten, replicate,
}
use zchunk.Go.Result.{Result, ok, u64_mod}
use zchunk.Go.Reader.{Bytes}
use zchunk.Go.Writer.{write, buffer}
use zchunk.Checksum.{size, sum, new_hash}
use zchunk.Lead.{equal}
use zchunk.Index.{IndexEntry, Index}
use zchunk.File.{or_nil}
use zchunk.Header.{RangeReader}
use zchunk.Delta.{DeltaPlan}
use zchunk.Assemble.{
  RemoteRun, ReaderAt, is_fetched, runs_from, remote_runs, result_of, run_at, read_local, cut,
  verify_write, write_piece, split, split_first, start_run, from_source, next_piece, assemble_from,
  assemble_with, assemble_body,
}
use zchunk.Assemble.Checked.{AllVerified, assemble_with-Verified}
use zchunk.Assemble.Pool.{
  default_fetch_concurrency, waiting, fetching, stored, gone, Worker, Pool, start, start_pool, Step,
  acquire, store, release, Reach, here, later, results_of,
}
use zchunk.Assemble.Pool.Schedules.{held, moves, total, in_flight_bounded}
use zchunk.Assemble.Pool.Progress.{workers_finish}
use zchunk.Assemble.Pool.Refines.{assemble_with-Reach}
use zchunk.Cli.{section}
use zchunk.Tests.{toy_hashes}

-- The entry of a chunk that is stored as it is.
abbrev pub stored_as : Bytes → IndexEntry
stored_as b = record {
  digest = or_nil (sum toy_hashes 3 b);
  uncompressed_digest = none;
  comp_length = length b;
  full_length = length b;
}

abbrev pub no_dict : IndexEntry
no_dict = record {
  digest = replicate 16 0;
  uncompressed_digest = none;
  comp_length = 0;
  full_length = 0;
}

abbrev pub fresh_chunk : Bytes
fresh_chunk = 1 ∷ 2 ∷ 3 ∷ []

abbrev pub old_chunk : Bytes
old_chunk = 7 ∷ 7 ∷ []

abbrev pub a_target : Index
a_target = record {
  chunk_checksum_type = 3;
  chunks = no_dict ∷ stored_as fresh_chunk ∷ stored_as old_chunk ∷ [];
}

abbrev a_fetch : DeltaPlan
a_fetch = record {
  sources =
      record { index = 0; is_local = true; offset = 0; size = 0 }
      ∷ record { index = 1; is_local = false; offset = 0; size = 3 }
      ∷ record { index = 2; is_local = true; offset = 0; size = 2 }
      ∷ [];
}

abbrev old_body : ReaderAt
old_body = section old_chunk

abbrev some_results : ℕ → Result Bytes
some_results k = ok fresh_chunk

assemble_with-Verified_example :
    (pieces : List Bytes) × AllVerified toy_hashes a_target 0 a_fetch.sources pieces
    × ((assemble_with toy_hashes a_fetch a_target old_body some_results buffer (6 ∷ [])).out
        ≡ (6 ∷ []) ++ flatten pieces)
    × ((assemble_with toy_hashes a_fetch a_target old_body some_results buffer (6 ∷ [])).count
        ≡ length (flatten pieces) % u64_mod)
unfolding assemble_with assemble_from next_piece from_source start_run split_first split cut run_at
    remote_runs runs_from is_fetched read_local section write_piece verify_write write sum new_hash
    size equal
assemble_with-Verified_example =
    assemble_with-Verified toy_hashes a_fetch a_target old_body some_results buffer (6 ∷ []) refl

abbrev a_remote : RangeReader
a_remote offset n = ok fresh_chunk

abbrev a_run : RemoteRun
a_run = record { offset = 0; size = 3; first = 1; count = 1 }

abbrev answers : ℕ → Result Bytes
answers = result_of a_remote (a_run ∷ [])

abbrev starting : Worker
starting = record { phase = waiting; result = none }

abbrev running : Worker
running = record { phase = fetching; result = none }

abbrev done : Worker
done = record { phase = stored; result = some (answers 0) }

abbrev left : Worker
left = record { phase = gone; result = some (answers 0) }

abbrev fetching_pool : Pool
fetching_pool = record { workers = running ∷ []; in_use = 1 }

abbrev last_pool : Pool
last_pool = record { workers = left ∷ []; in_use = 0 }

one_fetching : Reach answers (start_pool (a_run ∷ [])) fetching_pool
unfolding start
one_fetching = later here (acquire [] [] starting refl refl (leb→le 1 4 refl) refl)

all_gone : Reach answers (start_pool (a_run ∷ [])) last_pool
all_gone =
    later (later one_fetching (store [] [] running refl refl refl))
      (release [] [] done refl refl refl)

in_flight_bounded_example :
    (total held fetching_pool.workers ≡ fetching_pool.in_use)
    × (total held fetching_pool.workers ≤ default_fetch_concurrency)
in_flight_bounded_example = in_flight_bounded answers (a_run ∷ []) one_fetching

workers_finish_example :
    ((t : Pool) × Reach answers (start_pool (a_run ∷ [])) t × (total moves t.workers ≡ 0))
    × (0 < total moves fetching_pool.workers → (t : Pool) × Step answers fetching_pool t)
    × ((t : Pool)
        → Step answers fetching_pool t
        → total moves t.workers + 1 ≡ total moves fetching_pool.workers)
workers_finish_example = workers_finish answers (a_run ∷ []) one_fetching

assemble_with-Reach_example :
    assemble_with toy_hashes a_fetch a_target old_body (results_of last_pool) buffer []
    ≡ assemble_body toy_hashes a_fetch a_target old_body a_remote buffer []
unfolding remote_runs runs_from is_fetched total
assemble_with-Reach_example =
    assemble_with-Reach toy_hashes a_fetch a_target old_body a_remote buffer [] all_gone refl
