-- ===== src/Delta.antt =====
-- internal/zchunk/delta.go: `PlanDelta`, `FetchBytes` and `ReuseBytes`.
pub mod Plan
pub mod Totals
use zchunk.Prelude.{
  ℕ, ◌+◌, ◌%◌, Bool, true, false, Option, none, some, List, [], ◌∷◌, ◌++◌, ◌==◌, ltb, if◌then◌else◌,
}
use zchunk.Go.Error.{checksum_types_differ}
use zchunk.Go.Result.{Result, ok, guard, u64_mod, ◌>>◌}
use zchunk.Go.Reader.{Bytes}
use zchunk.Lead.{equal}
use zchunk.Index.{IndexEntry, Index}

pub record ChunkSource : Type 0 where
  pub index : ℕ
  pub is_local : Bool
  pub offset : ℕ
  pub size : ℕ

pub record DeltaPlan : Type 0 where
  pub sources : List ChunkSource

-- `map[string]uint64`, as the list of its insertions.
abbrev pub Offsets : Type 0
Offsets = List (Bytes × ℕ)

unfoldable pub lookup : Bytes → Offsets → Option ℕ
lookup d [] = none
lookup d ((k, o) ∷ m) = if equal k d then some o else lookup d m

-- `if _, ok := m[d]; !ok { m[d] = off }`
unfoldable pub insert_new : Bytes → ℕ → Offsets → Offsets
insert_new d off m = elim (lookup d m) [ some o ↦ m | none ↦ m ++ (d, off) ∷ [] ]

-- The loop over the local chunks.
unfoldable pub local_offsets : List IndexEntry → ℕ → Offsets → Offsets
local_offsets [] off m = m
local_offsets (e ∷ es) off m =
    local_offsets es ((off + e.comp_length) % u64_mod)
      (if ltb 0 e.comp_length then insert_new e.digest off m else m)

-- The body of the loop over the target chunks.
unfoldable pub source_of : Offsets → IndexEntry → ℕ → ℕ → ChunkSource
source_of m e i off =
    if e.comp_length == 0
    then record { index = i; is_local = true; offset = 0; size = e.comp_length }
    else elim (lookup e.digest m) [
      | some o ↦ record { index = i; is_local = true; offset = o; size = e.comp_length }
      | none ↦ record { index = i; is_local = false; offset = off; size = e.comp_length }
    ]

unfoldable pub plan_sources : Offsets → List IndexEntry → ℕ → ℕ → List ChunkSource
plan_sources m [] i off = []
plan_sources m (e ∷ es) i off =
    source_of m e i off ∷ plan_sources m es (i + 1) ((off + e.comp_length) % u64_mod)

-- A nil local index has no chunks.
abbrev pub local_chunks : Option Index → List IndexEntry
local_chunks none = []
local_chunks (some idx) = idx.chunks

-- `local != nil && len(local.Chunks) > 0 && local.ChunkChecksumType != …`, negated.
unfoldable pub types_agree : Option Index → Index → Bool
types_agree none target = true
types_agree (some idx) target = elim idx.chunks [
  | [] ↦ true
  | ◌∷◌ e es ↦ idx.chunk_checksum_type == target.chunk_checksum_type
]

-- The local checksum type that the error prints.
abbrev pub local_type : Option Index → ℕ
local_type none = 0
local_type (some idx) = idx.chunk_checksum_type

unfoldable pub plan_delta : Option Index → Index → Result DeltaPlan
plan_delta local target =
    guard (types_agree local target)
      (checksum_types_differ (local_type local) target.chunk_checksum_type)
    >> ok (record {
      sources = plan_sources (local_offsets (local_chunks local) 0 []) target.chunks 0 0;
    })

-- The two loops that add up the lengths, from `n` on.
unfoldable pub fetch_from : ℕ → List ChunkSource → ℕ
fetch_from n [] = n
fetch_from n (s ∷ ss) = fetch_from (if s.is_local then n else (n + s.size) % u64_mod) ss

unfoldable pub reuse_from : ℕ → List ChunkSource → ℕ
reuse_from n [] = n
reuse_from n (s ∷ ss) = reuse_from (if s.is_local then (n + s.size) % u64_mod else n) ss

unfoldable pub fetch_bytes : DeltaPlan → ℕ
unfolding fetch_from
fetch_bytes p = fetch_from 0 p.sources

unfoldable pub reuse_bytes : DeltaPlan → ℕ
unfolding reuse_from
reuse_bytes p = reuse_from 0 p.sources
