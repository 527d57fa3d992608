-- ===== src/Assemble/Runs.antt =====
-- The runs that `remote_runs` finds: what the loop makes of a run that it has begun.
use zchunk.Prelude.{
  ℕ, zero, suc, ◌+◌, ◌%◌, ◌≤◌, ◌<◌, ◌≡◌, ◌∙◌, ap, refl, inl, inr, true, Bool-cases, none, some,
  List, [], ◌∷◌, ◌++◌, ◌==◌, ==_iff, length, length-append, drop, flatten, All, get_elem?, arith,
}
use zchunk.Go.Result.{max_int, u64_mod}
use zchunk.Go.Reader.{Bytes}
use zchunk.Header.{RangeReader}
use zchunk.Delta.{ChunkSource}
use zchunk.Assemble.{RemoteRun, is_fetched, extend, runs_from, fetch_run, result_of, run_at}

-- The sources and the bytes of their chunks, one for one.
abbrev pub Sized : List ChunkSource → List Bytes → Type 0
Sized [] [] = Unit
Sized (s ∷ ss) (p ∷ ps) = (s.size ≡ length p) × Sized ss ps
Sized [] (p ∷ ps) = ⊥
Sized (s ∷ ss) [] = ⊥

-- The first `n` sources are fetched, and `b` holds the bytes of their chunks.
abbrev pub Covers : ℕ → List ChunkSource → List Bytes → Bytes → Type 0
Covers zero ss ps b = b ≡ []
Covers (suc n) (s ∷ ss) (p ∷ ps) b =
    (is_fetched s ≡ true) × (rest : Bytes) × (b ≡ p ++ rest) × Covers n ss ps rest
Covers (suc n) [] ps b = ⊥
Covers (suc n) (s ∷ ss) [] b = ⊥

-- A run that was begun as `r` takes in the first `more` of the sources that follow.
pub record Grown (r : RemoteRun) (j : ℕ) (ss : List ChunkSource) (ps : List Bytes) : Type 0 where
  pub more : ℕ
  pub bytes : Bytes
  pub run : RemoteRun
  pub covers : Covers more ss ps bytes
  pub same_first : run.first ≡ r.first
  pub same_offset : run.offset ≡ r.offset
  pub grown_size : run.size ≡ r.size + length bytes
  pub grown_count : run.count ≡ r.count + more
  pub runs : runs_from (some r) j ss ≡ run ∷ runs_from none (j + more) (drop more ss)

-- A run that ends here.
ended :
    (r : RemoteRun) (j : ℕ) (ss : List ChunkSource) (ps : List Bytes)
    → runs_from (some r) j ss ≡ r ∷ runs_from none j ss
    → Grown r j ss ps
ended r j ss ps e = record {
  more = 0;
  bytes = [];
  run = r;
  covers = refl;
  same_first = refl;
  same_offset = refl;
  grown_size = omega arith;
  grown_count = omega arith;
  runs = e ∙ ap (λ i. r ∷ runs_from none i ss) (omega arith);
}

pub grow :
    (r : RemoteRun) (j : ℕ) (ss : List ChunkSource) (ps : List Bytes)
    → Sized ss ps
    → r.size + length (flatten ps) ≤ max_int
    → Grown r j ss ps
unfolding runs_from
grow r j [] ps sized few = ended r j [] ps refl
grow r j (s ∷ ss) [] no_way few = absurd no_way
grow r j (s ∷ ss) (p ∷ ps) (same, sized) few = elim (Bool-cases (is_fetched s)) [
  | inr skipped ↦ ended r j (s ∷ ss) (p ∷ ps) (rw (skipped, runs_from))
  | inl fetched ↦
      let total = length-append p (flatten ps) in
      let fits : (r.size + s.size) % u64_mod ≡ r.size + length p = omega arith in
      let g = grow (extend (some r) j s) (j + 1) ss ps sized (omega arith) in
      record {
        more = suc g.more;
        bytes = p ++ g.bytes;
        run = g.run;
        covers = (fetched, g.bytes, refl, g.covers);
        same_first = g.same_first;
        same_offset = g.same_offset;
        grown_size = omega (arith, g.grown_size, length-append p g.bytes);
        grown_count = omega (arith, g.grown_count);
        runs =
            rw (fetched, runs_from)
              (g.runs ∙ ap (λ i. g.run ∷ runs_from none i (drop g.more ss)) (omega arith));
      }
]

-- The runs in front of source `i`.
abbrev pub Before : ℕ → List RemoteRun → Type 0
Before i = All (λ (r : RemoteRun). r.first < i)

pub Before-weaken : (i j : ℕ) (rs : List RemoteRun) → i ≤ j → Before i rs → Before j rs
Before-weaken i j [] le h = tt
Before-weaken i j (r ∷ rs) le (b, bs) = (omega arith, Before-weaken i j rs le bs)

pub Before-concat :
    (i : ℕ) (rs : List RemoteRun) (r : RemoteRun)
    → Before i rs
    → r.first < i
    → Before i (rs ++ r ∷ [])
Before-concat i [] r h lt = (lt, tt)
Before-concat i (q ∷ rs) r (b, bs) lt = (b, Before-concat i rs r bs lt)

-- `runAt` finds the run that starts at `i` behind those in front of it, and its result.
pub run_at-append :
    (i k : ℕ) (rs : List RemoteRun) (r : RemoteRun) (later : List RemoteRun)
    → Before i rs
    → r.first ≡ i
    → run_at i k (rs ++ r ∷ later) ≡ k + length rs
unfolding run_at
run_at-append i k [] r later h e = rw ((==_iff r.first i).1 e) (omega arith)
run_at-append i k (q ∷ rs) r later (b, bs) e = elim (Bool-cases (q.first == i)) [
  | inl same ↦ absurd (omega (arith, (==_iff q.first i).0 same))
  | inr other ↦ rw other (omega (arith, run_at-append i (k + 1) rs r later bs e))
]

pub get_elem?-append :
    (rs : List RemoteRun) (r : RemoteRun) (later : List RemoteRun)
    → get_elem? (rs ++ r ∷ later) (length rs) ≡ some r
get_elem?-append [] r later = refl
get_elem?-append (q ∷ rs) r later = get_elem?-append rs r later

pub result_of-append :
    (remote : RangeReader) (rs : List RemoteRun) (r : RemoteRun) (later : List RemoteRun)
    → result_of remote (rs ++ r ∷ later) (length rs) ≡ fetch_run remote r
unfolding result_of
result_of-append remote [] r later = refl
result_of-append remote (q ∷ rs) r later = result_of-append remote rs r later
