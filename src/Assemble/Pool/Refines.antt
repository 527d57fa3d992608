-- ===== src/Assemble/Pool/Refines.antt =====
-- The concurrent fetches give the loop of `AssembleBody` what fetching one run after the other gives.
use mathlib.Core.Path.{fun_ext}
use zchunk.Prelude.{
  ℕ, zero, suc, ◌+◌, ◌≡◌, ◌∙◌, ap, refl, inr, List, [], ◌∷◌, length, get_elem?, arith,
}
use zchunk.Go.Result.{Result}
use zchunk.Go.Reader.{Bytes}
use zchunk.Go.Writer.{Writer}
use zchunk.Checksum.{Hashes}
use zchunk.Index.{Index}
use zchunk.Header.{RangeReader}
use zchunk.Delta.{DeltaPlan}
use zchunk.Assemble.{RemoteRun, ReaderAt, remote_runs, result_of, assemble_with, assemble_body}
use zchunk.Assemble.Pool.{
  Phase, waiting, fetching, stored, gone, Worker, Pool, start_pool, Reach, received, results_of,
}
use zchunk.Assemble.Pool.Schedules.{moves, total, AllHonest, start-Inv, Reach-Inv}

all_gone : (p : Phase) → moves p ≡ 0 → p ≡ gone
all_gone waiting e = ground arith
all_gone fetching e = ground arith
all_gone stored e = ground arith
all_gone gone e = refl

received_answers :
    (remote : RangeReader) (runs : List RemoteRun) (answer : ℕ → Result Bytes) (i : ℕ)
    (ks : List Worker)
    → ((k : ℕ) → answer (i + k) ≡ result_of remote runs k)
    → length ks ≡ length runs
    → AllHonest answer i ks
    → total moves ks ≡ 0
    → (k : ℕ) → received (get_elem? ks k) ≡ result_of remote runs k
unfolding result_of total
received_answers remote [] answer i [] same size honest left k = refl
received_answers remote (r ∷ runs) answer i [] same size honest left k = ground arith
received_answers remote [] answer i (q ∷ ks) same size honest left k = ground arith
received_answers remote (r ∷ runs) answer i (q ∷ ks) same size (h, hs) left zero =
    let here : answer i ≡ result_of remote (r ∷ runs) 0 = ap answer (omega arith) ∙ same 0 in
    rw (h (inr (all_gone q.phase (omega (arith, left))))) here
received_answers remote (r ∷ runs) answer i (q ∷ ks) same size (h, hs) left (suc k) =
    received_answers remote runs answer (i + 1) ks (λ j. ap answer (omega arith) ∙ same (suc j))
      (omega (arith, size)) hs (omega (arith, left)) k

-- Whatever the order in which the workers of `AssembleBody` run, when all have left the semaphore,
-- the results that they leave give what fetching the runs one after the other gives: the same
-- bytes written, the same count, and the same error or success.
pub assemble_with-Reach :
    (h : Hashes) (p : DeltaPlan) (target : Index) (local : ReaderAt) (remote : RangeReader)
    (w : Writer) (out : Bytes) {s : Pool}
    → Reach (result_of remote (remote_runs p)) (start_pool (remote_runs p)) s
    → total moves s.workers ≡ 0
    → assemble_with h p target local (results_of s) w out
      ≡ assemble_body h p target local remote w out
unfolding assemble_body results_of
assemble_with-Reach h p target local remote w out {s} r left =
    let runs = remote_runs p in
    let inv = Reach-Inv (start-Inv (result_of remote runs) runs) r in
    let same : results_of s ≡ result_of remote runs = fun_ext (
      received_answers remote runs (result_of remote runs) 0 s.workers
        (λ k. ap (result_of remote runs) (omega arith)) inv.size inv.honest left) in
    ap (λ results. assemble_with h p target local results w out) same
