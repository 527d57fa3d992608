-- ===== src/Cli/Tally.antt =====
-- The chunks of a target and their bytes, counted against a local file.
use zchunk.Prelude.{
  ℕ, ◌+◌, ◌%◌, ◌<◌, ◌≡◌, true, false, Bool-cases, inl, inr, List, [], ◌∷◌, ◌==◌, ==_iff,
  if◌then◌else◌, arith,
}
use zchunk.Go.Result.{u64_mod}
use zchunk.Index.{IndexEntry}
use zchunk.Delta.{ChunkSource, fetch_from, reuse_from}
use zchunk.Delta.Plan.{NoMatch, Sourced, Follows, done, next}
use zchunk.Assemble.Unfetched.{Held}
use zchunk.Cli.Remote.{count_chunks}

-- Of the target chunks, `a` with `x` bytes are empty or have the digest of a non-empty local chunk, and
-- `b` with `y` bytes are not empty and have the digest of no non-empty local chunk.
pub data Tally (es : List IndexEntry) : List IndexEntry → ℕ → ℕ → ℕ → ℕ → Type 0 where
  none_left : Tally es [] 0 0 0 0
  reused :
      {ts : List IndexEntry} {a b x y : ℕ} (e : IndexEntry)
      → Held es e
      → Tally es ts a b x y
      → Tally es (e ∷ ts) (a + 1) b (e.comp_length + x) y
  missing :
      {ts : List IndexEntry} {a b x y : ℕ} (e : IndexEntry)
      → 0 < e.comp_length
      → NoMatch e.digest es
      → Tally es ts a b x y
      → Tally es (e ∷ ts) a (b + 1) x (e.comp_length + y)

-- The bytes that a plan's sources reuse and those that they fetch, as mathematical numbers.
unfoldable pub local_size : List ChunkSource → ℕ
local_size [] = 0
local_size (s ∷ ss) = if s.is_local then s.size + local_size ss else local_size ss

unfoldable pub remote_size : List ChunkSource → ℕ
remote_size [] = 0
remote_size (s ∷ ss) = if s.is_local then remote_size ss else s.size + remote_size ss

reuse_from-local_size :
    (n : ℕ) (ss : List ChunkSource) → reuse_from (n % u64_mod) ss ≡ (n + local_size ss) % u64_mod
unfolding reuse_from local_size
reuse_from-local_size n [] = omega arith
reuse_from-local_size n (s ∷ ss) = elim (Bool-cases s.is_local) [
  | inl here ↦ rw here (omega (arith, reuse_from-local_size (n % u64_mod + s.size) ss))
  | inr there ↦ rw there (reuse_from-local_size n ss)
]

fetch_from-remote_size :
    (n : ℕ) (ss : List ChunkSource) → fetch_from (n % u64_mod) ss ≡ (n + remote_size ss) % u64_mod
unfolding fetch_from remote_size
fetch_from-remote_size n [] = omega arith
fetch_from-remote_size n (s ∷ ss) = elim (Bool-cases s.is_local) [
  | inl here ↦ rw here (fetch_from-remote_size n ss)
  | inr there ↦ rw there (omega (arith, fetch_from-remote_size (n % u64_mod + s.size) ss))
]

pub reuse_from-zero : (ss : List ChunkSource) → reuse_from 0 ss ≡ local_size ss % u64_mod
reuse_from-zero ss = omega (arith, reuse_from-local_size 0 ss)

pub fetch_from-zero : (ss : List ChunkSource) → fetch_from 0 ss ≡ remote_size ss % u64_mod
fetch_from-zero ss = omega (arith, fetch_from-remote_size 0 ss)

local-Held :
    (es : List IndexEntry) (e : IndexEntry) (i off : ℕ) (s : ChunkSource)
    → Sourced es e i off s
    → s.is_local ≡ true
    → Held es e
local-Held es e i off s (_, (_, (_, nonempty))) here = elim (Bool-cases (e.comp_length == 0)) [
  | inl empty ↦ inl ((==_iff e.comp_length 0).0 empty)
  | inr positive ↦ elim (nonempty (ground (arith, positive))) [
    | inl (_, match) ↦ inr (s.offset, match)
    | inr (there, _) ↦ cc (here, there)
  ]
]

remote-NoMatch :
    (es : List IndexEntry) (e : IndexEntry) (i off : ℕ) (s : ChunkSource)
    → Sourced es e i off s
    → s.is_local ≡ false
    → (0 < e.comp_length) × NoMatch e.digest es
remote-NoMatch es e i off s (_, (_, (empty_local, nonempty))) there =
    elim (Bool-cases (e.comp_length == 0)) [
      | inl empty ↦ cc (there, empty_local ((==_iff e.comp_length 0).0 empty))
      | inr positive ↦
          let some_bytes : 0 < e.comp_length = ground (arith, positive) in
          elim (nonempty some_bytes) [
            | inl (here, _) ↦ cc (here, there)
            | inr (_, (_, apart)) ↦ (some_bytes, apart)
          ]
    ]

pub Follows-Tally :
    {es ts : List IndexEntry} {ss : List ChunkSource} {i off : ℕ}
    → Follows es ts ss i off
    → Tally es ts (count_chunks ss).0 (count_chunks ss).1 (local_size ss) (remote_size ss)
unfolding count_chunks local_size remote_size
Follows-Tally done = none_left
Follows-Tally (next e s sourced later) = elim (Bool-cases s.is_local) [
  | inl here ↦
      rw (here, sourced.1.0) (reused e (local-Held _ e _ _ s sourced here) (Follows-Tally later))
  | inr there ↦
      let (some_bytes, apart) = remote-NoMatch _ e _ _ s sourced there in
      rw (there, sourced.1.0) (missing e some_bytes apart (Follows-Tally later))
]
