-- ===== src/Assemble/Unfetched.antt =====
-- When a plan has no run to fetch, and what `AssembleBody` does with the remote then.
use zchunk.Prelude.{
  ℕ, ◌+◌, ◌<◌, ◌≡◌, ◌≢◌, ◌⊎◌, ◌↔◌, ◌∙◌, inl, inr, sym, ap, refl, true, false, Bool-cases, Option,
  some, none, List, [], ◌∷◌, All, ◌==◌, ==_iff, arith,
}
use mathlib.Core.Path.{fun_ext}
use zchunk.Go.Result.{ok, ok-injective}
use zchunk.Go.Reader.{Bytes}
use zchunk.Go.Writer.{Writer}
use zchunk.Checksum.{Hashes}
use zchunk.Header.{RangeReader}
use zchunk.Index.{IndexEntry, Index}
use zchunk.Delta.{ChunkSource, DeltaPlan, local_chunks, plan_delta}
use zchunk.Delta.Plan.{
  Match, NoMatch, Stands, here, there, Sourced, Follows, done, next, plan_delta-Follows,
}
use zchunk.Assemble.{
  ReaderAt, RemoteRun, is_fetched, extend, runs_from, remote_runs, result_of, assemble_with,
  assemble_body,
}

-- The target chunk `e` needs no transfer: it is empty, or a non-empty local chunk has its digest.
abbrev pub Held : List IndexEntry → IndexEntry → Type 0
Held es e = (e.comp_length ≡ 0) ⊎ ((o : ℕ) × Match e.digest o es 0)

-- A run that was begun is not forgotten.
runs_from-begun : (r : RemoteRun) (i : ℕ) (ss : List ChunkSource) → runs_from (some r) i ss ≢ []
unfolding runs_from
runs_from-begun r i [] = λ e. cc e
runs_from-begun r i (s ∷ ss) = elim (Bool-cases (is_fetched s)) [
  | inl fetched ↦ rw (fetched, runs_from) (runs_from-begun (extend (some r) i s) (i + 1) ss)
  | inr skipped ↦ rw (skipped, runs_from) (λ e. cc e)
]

runs_from-none :
    (i : ℕ) (ss : List ChunkSource)
    → (runs_from none i ss ≡ []) ↔ All (λ (s : ChunkSource). is_fetched s ≡ false) ss
unfolding runs_from
runs_from-none i [] = (λ _. tt, λ _. refl)
runs_from-none i (s ∷ ss) = elim (Bool-cases (is_fetched s)) [
  | inl fetched ↦
      let begun : runs_from none i (s ∷ ss) ≢ [] =
        rw (fetched, runs_from) (runs_from-begun (extend none i s) (i + 1) ss) in
      (λ e. absurd (begun e), λ (skipped, _). cc (fetched, skipped))
  | inr skipped ↦
      let later : runs_from none i (s ∷ ss) ≡ runs_from none (i + 1) ss =
        rw (skipped, runs_from) refl in
      let (to, from) = runs_from-none (i + 1) ss in
      (λ e. (skipped, to (sym later ∙ e)), λ (_, rest). later ∙ from rest)
]

Match-NoMatch :
    {d : Bytes} {e : IndexEntry} {o off : ℕ} (es : List IndexEntry)
    → Stands e o es off
    → e.digest ≡ d
    → 0 < e.comp_length
    → ¬ NoMatch d es
Match-NoMatch [] stands same positive _ = elim stands [ ]
Match-NoMatch (_ ∷ _) (here es place) same positive (apart, _) = apart positive same
Match-NoMatch (_ ∷ _) (there e' es stands) same positive (_, apart) =
    Match-NoMatch es stands same positive apart

local_skipped : (s : ChunkSource) → s.is_local ≡ true → is_fetched s ≡ false
unfolding is_fetched
local_skipped s is_here = rw is_here refl

remote_fetched : (s : ChunkSource) → s.is_local ≡ false → 0 < s.size → is_fetched s ≡ true
unfolding is_fetched
remote_fetched s is_there positive = ground (arith, is_there, positive)

-- A source is left out of the runs exactly when its chunk is held.
is_fetched-Held :
    (es : List IndexEntry) (e : IndexEntry) (i off : ℕ) (s : ChunkSource)
    → Sourced es e i off s
    → (is_fetched s ≡ false) ↔ Held es e
is_fetched-Held es e i off s (_, (size, (empty, nonempty))) =
    elim (Bool-cases (e.comp_length == 0)) [
      | inl zero_length ↦
          let none_there : e.comp_length ≡ 0 = (==_iff e.comp_length 0).0 zero_length in
          (λ _. inl none_there, λ _. local_skipped s (empty none_there))
      | inr positive ↦ elim (nonempty (ground (arith, positive))) [
        | inl (is_here, match) ↦ (λ _. inr (_, match), λ _. local_skipped s is_here)
        | inr (is_there, (_, apart)) ↦ (
          λ skipped. cc (skipped, remote_fetched s is_there (ground (arith, positive, size))),
          λ held. elim held [
            | inl none_there ↦ absurd (ground (arith, positive, none_there))
            | inr (o, match) ↦
                absurd (Match-NoMatch es match.stands match.same_digest match.nonempty apart)
          ],
        )
      ]
    ]

Follows-Held :
    {es ts : List IndexEntry} {ss : List ChunkSource} {i off : ℕ}
    → Follows es ts ss i off
    → All (λ (s : ChunkSource). is_fetched s ≡ false) ss ↔ All (Held es) ts
Follows-Held done = (λ _. tt, λ _. tt)
Follows-Held (next e s sourced later) =
    let (to, from) = is_fetched-Held _ e _ _ s sourced in
    let (tos, froms) = Follows-Held later in
    (λ (h, hs). (to h, tos hs), λ (h, hs). (from h, froms hs))

-- A plan has no run to fetch exactly when each chunk of the target is empty or has the digest of
-- a non-empty local chunk.
pub remote_runs-Held :
    (local : Option Index) (target : Index) {p : DeltaPlan}
    → plan_delta local target ≡ ok p
    → (remote_runs p ≡ []) ↔ All (Held (local_chunks local)) target.chunks
unfolding remote_runs
remote_runs-Held local target {p} h = elim (plan_delta-Follows local target) [
  | inl (_, (q, (planned, follows))) ↦
      let same : p ≡ q = ok-injective (sym h ∙ planned) in
      let (to, from) = Follows-Held follows in
      let (tos, froms) = runs_from-none 0 q.sources in
      rw same (λ e. to (tos e), λ held. froms (from held))
  | inr (_, (_, refused)) ↦ cc
]

-- When each chunk of the target is empty or has the digest of a non-empty local chunk,
-- `AssembleBody` writes and returns the same with any two remotes.
pub assemble_body-Held :
    (h : Hashes) (p : DeltaPlan) (local : Option Index) (target : Index) (file : ReaderAt)
    (remote remote' : RangeReader) (w : Writer) (out : Bytes)
    → plan_delta local target ≡ ok p
    → All (Held (local_chunks local)) target.chunks
    → assemble_body h p target file remote w out ≡ assemble_body h p target file remote' w out
unfolding assemble_body result_of
assemble_body-Held h p local target file remote remote' w out planned held =
    let none_left = (remote_runs-Held local target planned).1 held in
    let no_results : (k : ℕ)
        → result_of remote (remote_runs p) k ≡ result_of remote' (remote_runs p) k =
      λ k. rw none_left refl in
    ap (λ results. assemble_with h p target file results w out) (fun_ext no_results)
