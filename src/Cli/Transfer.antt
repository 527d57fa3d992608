-- ===== src/Cli/Transfer.antt =====
-- What `delta-size` reports, and what a download by the same plan asks a server for.
use zchunk.Prelude.{
  ℕ, ◌++◌, append-nil, ◌+◌, ◌%◌, ◌≡◌, ◌∙◌, sym, ap, refl, true, false, Bool-cases, inl, inr, Option,
  none, some, List, [], ◌∷◌, length, arith,
}
use zchunk.Go.Result.{ok, u64_mod, ok-injective}
use zchunk.Index.{IndexEntry, Index}
use zchunk.Delta.{
  ChunkSource, DeltaPlan, fetch_from, fetch_bytes, reuse_bytes, local_chunks, plan_delta,
}
use zchunk.Delta.Plan.{Follows, done, next, plan_delta-Follows}
use zchunk.Delta.Totals.{body_length, fetch_bytes-reuse_bytes}
use zchunk.Assemble.{RemoteRun, finished, is_fetched, extend, runs_from, remote_runs}
use zchunk.Cli.Tally.{
  Tally, Follows-Tally, local_size, remote_size, reuse_from-zero, fetch_from-zero,
}
use zchunk.Cli.Remote.{count_chunks, report_delta_size}

-- The bytes that the runs ask for, as a mathematical number.
unfoldable pub requested : List RemoteRun → ℕ
requested [] = 0
requested (r ∷ rs) = r.size + requested rs

nothing_requested : requested [] ≡ 0
unfolding requested
nothing_requested = refl

abbrev begun : Option RemoteRun → ℕ
begun none = 0
begun (some r) = r.size

fetch_from_more :
    (n : ℕ) (ss : List ChunkSource) → fetch_from n ss % u64_mod ≡ (n + fetch_from 0 ss) % u64_mod
unfolding fetch_from
fetch_from_more n [] = omega arith
fetch_from_more n (s ∷ ss) = elim (Bool-cases s.is_local) [
  | inl here ↦ rw here (fetch_from_more n ss)
  | inr there ↦ rw there (
      omega (
        arith,
        fetch_from_more ((n + s.size) % u64_mod) ss,
        fetch_from_more ((0 + s.size) % u64_mod) ss,
      ))
]

extend-size :
    (run : Option RemoteRun) (i : ℕ) (s : ChunkSource)
    → (extend run i s).size ≡ (begun run + s.size) % u64_mod
extend-size none i s = omega arith
extend-size (some r) i s = refl

requested-finished :
    (run : Option RemoteRun) (rs : List RemoteRun)
    → requested (finished run ++ rs) ≡ begun run + requested rs
unfolding requested
requested-finished none rs = omega arith
requested-finished (some r) rs = refl

skipped :
    (n : ℕ) (s : ChunkSource) (ss : List ChunkSource)
    → is_fetched s ≡ false
    → fetch_from n (s ∷ ss) % u64_mod ≡ fetch_from n ss % u64_mod
unfolding fetch_from is_fetched
skipped n s ss h = elim (Bool-cases s.is_local) [
  | inl here ↦ rw here refl
  | inr there ↦
      let nothing : s.size ≡ 0 = ground (arith, h, there) in
      rw (there, nothing)
        (omega (arith, fetch_from_more ((n + 0) % u64_mod) ss, fetch_from_more n ss))
]

fetched_size :
    (n : ℕ) (s : ChunkSource) (ss : List ChunkSource)
    → is_fetched s ≡ true
    → fetch_from n (s ∷ ss) ≡ fetch_from ((n + s.size) % u64_mod) ss
unfolding fetch_from is_fetched
fetched_size n s ss h = let there : s.is_local ≡ false = ground (arith, h) in rw there refl

runs_from-requested :
    (run : Option RemoteRun) (i : ℕ) (ss : List ChunkSource)
    → requested (runs_from run i ss) % u64_mod ≡ (begun run + fetch_from 0 ss) % u64_mod
unfolding runs_from
runs_from-requested run i [] =
    unfold fetch_from in
    omega (
      arith,
      requested-finished run [],
      nothing_requested,
      ap requested (append-nil (finished run)),
    )
runs_from-requested run i (s ∷ ss) = elim (Bool-cases (is_fetched s)) [
  | inl fetched ↦
      rw (fetched, runs_from)
        (omega (
          arith,
          runs_from-requested (some (extend run i s)) (i + 1) ss,
          extend-size run i s,
          fetched_size 0 s ss fetched,
          fetch_from_more ((0 + s.size) % u64_mod) ss,
        ))
  | inr other ↦
      rw (other, runs_from)
        (omega (
          arith,
          requested-finished run (runs_from none (i + 1) ss),
          runs_from-requested none (i + 1) ss,
          skipped 0 s ss other,
        ))
]

Follows-length :
    {es ts : List IndexEntry} {ss : List ChunkSource} {i off : ℕ}
    → Follows es ts ss i off
    → length ss ≡ length ts
Follows-length done = refl
Follows-length (next e s sourced later) = omega (arith, Follows-length later)

plan_delta-length :
    (local : Option Index) (target : Index) {p : DeltaPlan}
    → plan_delta local target ≡ ok p
    → length p.sources ≡ length target.chunks
plan_delta-length local target h = elim (plan_delta-Follows local target) [
  | inl (_, (q, (planned, follows))) ↦
      sym (ap (λ (x : DeltaPlan). length x.sources) (ok-injective (sym planned ∙ h)))
      ∙ Follows-length follows
  | inr (_, (_, refused)) ↦ cc
]

plan_delta-Tally :
    (local : Option Index) (target : Index) {p : DeltaPlan}
    → plan_delta local target ≡ ok p
    → Tally
        (local_chunks local)
        target.chunks
        (count_chunks p.sources).0
        (count_chunks p.sources).1
        (local_size p.sources)
        (remote_size p.sources)
plan_delta-Tally local target {p} h = elim (plan_delta-Follows local target) [
  | inl (_, (q, (planned, follows))) ↦
      let same : p ≡ q = ok-injective (sym h ∙ planned) in rw same (Follows-Tally follows)
  | inr (_, (_, refused)) ↦ cc
]

-- What `delta-size` reports of a plan: the chunks of the target; how many of these can be reused, which
-- are empty or have the digest of a non-empty local chunk, and how many cannot; and the compressed
-- lengths of the former, of the latter and of all, each modulo 2^64. The bytes that it reports as
-- fetched are those that the runs of `AssembleBody` ask the server for, modulo 2^64.
pub report_delta_size-remote_runs :
    (local : Option Index) (target : Index) {p : DeltaPlan}
    → plan_delta local target ≡ ok p
    → let r = report_delta_size p in
      (reused missing : ℕ) × (r.chunks ≡ length target.chunks)
      × Tally (local_chunks local) target.chunks r.reuse_chunks r.fetch_chunks reused missing
      × (r.reuse ≡ reused % u64_mod)
      × (r.fetch ≡ missing % u64_mod)
      × (r.fetch ≡ requested (remote_runs p) % u64_mod)
      × (r.total ≡ body_length target.chunks % u64_mod)
unfolding report_delta_size fetch_bytes reuse_bytes remote_runs
report_delta_size-remote_runs local target {p} h =
    let fetch = fetch_from-zero p.sources in
    (
      local_size p.sources,
      remote_size p.sources,
      plan_delta-length local target h,
      plan_delta-Tally local target h,
      reuse_from-zero p.sources,
      fetch,
      omega (arith, fetch, runs_from-requested none 0 p.sources),
      omega (arith, fetch_bytes-reuse_bytes local target h),
    )
