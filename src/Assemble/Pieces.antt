-- ===== src/Assemble/Pieces.antt =====
-- One round of the main loop, for a target whose chunks are known: it gets the chunk's bytes.
use mathlib.Core.Path.{subst}
use zchunk.Prelude.{
  ℕ, suc, ◌+◌, ◌%◌, ◌≤◌, ◌<◌, ◌≡◌, ◌∙◌, sym, ap, refl, ◌⊎◌, inl, true, false, Option, none, some,
  List, [], ◌∷◌, ◌++◌, leb, le→leb, length, length-append, length-drop, drop, take-append,
  drop-append, drop-drop, arith,
}
use zchunk.Go.Result.{Result, ok, max_int, u64_mod}
use zchunk.Go.Reader.{Bytes}
use zchunk.Checksum.{ChecksumType, Hashes, sum}
use zchunk.Index.{IndexEntry}
use zchunk.File.{or_nil}
use zchunk.Delta.{ChunkSource}
use zchunk.Delta.Plan.{Match}
use zchunk.Assemble.{RemoteRun, ReaderAt, is_fetched, runs_from, cut, Pending, idle, split}
use zchunk.Assemble.Runs.{Covers, Before, Before-weaken}

-- The bytes of a target chunk: they have the entry's length and digest, and wherever the plan can
-- take the chunk from the local file, they are what stands there.
pub record Piece (h : Hashes) (t : ChecksumType) (local : ReaderAt) (es : List IndexEntry)
    (e : IndexEntry) (p : Bytes) : Type 0 where
  pub whole : length p ≡ e.comp_length
  pub digest : 0 < e.comp_length → or_nil (sum h t p) ≡ e.digest
  pub copies :
      0 < e.comp_length → (o : ℕ) → Match e.digest o es 0 → local o e.comp_length ≡ (p, none)

-- What the loop is about to do: the runs that are left belong to the sources that are left, and
-- the bytes of a run that is being split are those of its next chunks.
pub record Ready (all : List RemoteRun) (ss : List ChunkSource) (ps : List Bytes) (i : ℕ)
    (st : Pending) : Type 0 where
  pub past : List RemoteRun
  pub runs : all ≡ past ++ runs_from none (i + st.left) (drop st.left ss)
  pub before : Before (i + st.left) past
  pub covers : Covers st.left ss ps (drop st.pos st.fetched)
  pub few : length st.fetched ≤ max_int

-- The piece of the next source is `p`, or nothing is written for it and `p` is empty.
pub record Gets (all : List RemoteRun) (ss : List ChunkSource) (ps : List Bytes) (i : ℕ) (p : Bytes)
    (r : Result (Option Bytes × Pending)) : Type 0 where
  pub piece : Option Bytes
  pub state : Pending
  pub gets : r ≡ ok (piece, state)
  pub same_bytes : ((piece ≡ some p) × (0 < length p)) ⊎ ((piece ≡ none) × (p ≡ []))
  pub ready : Ready all ss ps (i + 1) state

-- Behind a source that is not fetched.
pub idle-Ready :
    (all past : List RemoteRun) (s : ChunkSource) (ss : List ChunkSource) (ps : List Bytes) (i : ℕ)
    → is_fetched s ≡ false
    → all ≡ past ++ runs_from none i (s ∷ ss)
    → Before i past
    → Ready all ss ps (i + 1) idle
unfolding runs_from
idle-Ready all past s ss ps i skipped runs before = record {
  past = past;
  runs =
      runs
      ∙ ap (λ l. past ++ l) (rw (skipped, runs_from) (ap (λ j. runs_from none j ss) (omega arith)));
  before = Before-weaken i (i + 1 + 0) past (omega arith) before;
  covers = refl;
  few = omega arith;
}

cut_inside :
    (b : Bytes) (pos n : ℕ) (p rest : Bytes)
    → drop pos b ≡ p ++ rest
    → length p ≡ n
    → 0 < n
    → (cut b pos n ≡ ok p) × (drop (pos + n) b ≡ rest)
unfolding cut
cut_inside b pos n p rest e long some_bytes =
    let inside : leb (pos + n) (length b) ≡ true =
      le→leb (pos + n) (length b)
        (omega (arith, ap length e, length-drop pos b, length-append p rest)) in
    (
      rw (inside, e, ← long) (ap ok (take-append p rest)),
      drop-drop pos n b ∙ rw (e, ← long) (drop-append p rest),
    )

pub fetched-nonempty : (s : ChunkSource) → is_fetched s ≡ true → 0 < s.size
unfolding is_fetched
fetched-nonempty s e = ground arith

pub split-Gets :
    (all : List RemoteRun) (s : ChunkSource) (ss : List ChunkSource) (p : Bytes) (ps : List Bytes)
    (i : ℕ) (b rest : Bytes) (pos left : ℕ) (past : List RemoteRun)
    → is_fetched s ≡ true
    → s.size ≡ length p
    → length b ≤ max_int
    → drop pos b ≡ p ++ rest
    → Covers left ss ps rest
    → all ≡ past ++ runs_from none (i + suc left) (drop left ss)
    → Before (i + suc left) past
    → Gets all ss ps i p (split b pos left s)
unfolding split
split-Gets all s ss p ps i b rest pos left past fetched long few e covers runs before =
    let (got, behind) = cut_inside b pos s.size p rest e (sym long) (fetched-nonempty s fetched) in
    let inside : pos + s.size ≤ length b =
      omega
        (arith, ap length e, length-drop pos b, length-append p rest, fetched-nonempty s fetched) in
    let no_wrap : (pos + s.size) % u64_mod ≡ pos + s.size = omega arith in
    record {
      piece = some p;
      state = record { fetched = b; pos = pos + s.size; left = left };
      gets = rw (got, no_wrap);
      same_bytes = inl (refl, omega (arith, fetched-nonempty s fetched));
      ready = record {
        past = past;
        runs = runs ∙ ap (λ j. past ++ runs_from none j (drop left ss)) (omega arith);
        before = Before-weaken (i + suc left) (i + 1 + left) past (omega arith) before;
        covers = subst (Covers left ss ps) (sym behind) covers;
        few = few;
      };
    }
