-- ===== src/Delta/Plan.antt =====
-- Where a plan takes each chunk from.
use zchunk.Prelude.{
  ℕ, ◌+◌, ◌%◌, ◌<◌, ◌≡◌, ◌≢◌, ◌⊎◌, ◌∙◌, inl, inr, sym, ap, refl, Bool, true, false, Bool-cases,
  Option, none, some, Option-cases, List, [], ◌∷◌, ◌++◌, All, ◌==◌, ==_iff, ltb, if◌then◌else◌,
  arith, ◌↔◌, List-cases,
}
use zchunk.Go.Result.{ok, err, u64_mod}
use zchunk.Go.Reader.{Bytes}
use zchunk.Go.Error.{checksum_types_differ}
use zchunk.Lead.{equal}
use zchunk.Lead.RoundTrip.{equal_iff}
use zchunk.Index.{IndexEntry, Index}
use zchunk.Delta.{
  ChunkSource, DeltaPlan, Offsets, lookup, insert_new, local_offsets, source_of, plan_sources,
  local_chunks, local_type, types_agree, plan_delta,
}

-- Chunk `e` stands at body offset `o` (a uint64) of the chunks `es`, the first of which stands at `off`.
pub data Stands (e : IndexEntry) (o : ℕ) : List IndexEntry → ℕ → Type 0 where
  here : {off : ℕ} (es : List IndexEntry) → o ≡ off → Stands e o (e ∷ es) off
  there :
      {off : ℕ} (e' : IndexEntry) (es : List IndexEntry)
      → Stands e o es ((off + e'.comp_length) % u64_mod)
      → Stands e o (e' ∷ es) off

-- A non-empty local chunk with the digest `d`, at offset `o`.
pub record Match (d : Bytes) (o : ℕ) (es : List IndexEntry) (off : ℕ) : Type 0 where
  pub entry : IndexEntry
  pub stands : Stands entry o es off
  pub same_digest : entry.digest ≡ d
  pub nonempty : 0 < entry.comp_length

-- No non-empty local chunk has the digest `d`.
abbrev pub NoMatch : Bytes → List IndexEntry → Type 0
NoMatch d es = All (λ (e : IndexEntry). 0 < e.comp_length → e.digest ≢ d) es

lookup-append :
    (d k : Bytes) (o : ℕ) (m : Offsets)
    → lookup d (m ++ (k, o) ∷ [])
      ≡ elim (lookup d m) [ some x ↦ some x | none ↦ if equal k d then some o else none ]
unfolding lookup
lookup-append d k o [] = refl
lookup-append d k o ((j, x) ∷ m) = ground (arith, lookup-append d k o m)

insert_new_fresh :
    (k : Bytes) (o : ℕ) (m : Offsets) → lookup k m ≡ none → insert_new k o m ≡ m ++ (k, o) ∷ []
unfolding insert_new
insert_new_fresh k o m e = rw (e, insert_new)

insert_new_known :
    (k : Bytes) (o : ℕ) (m : Offsets) {x : ℕ} → lookup k m ≡ some x → insert_new k o m ≡ m
unfolding insert_new
insert_new_known k o m e = rw (e, insert_new)

-- What an insertion can have put there: its own offset, at its own digest only.
insert_new-some :
    (d k : Bytes) (o : ℕ) (m : Offsets) {x : ℕ}
    → lookup d (insert_new k o m) ≡ some x
    → (lookup d m ≡ some x) ⊎ ((k ≡ d) × (o ≡ x))
insert_new-some d k o m e = elim (Option-cases (lookup k m)) [
  | inl fresh ↦
      ground (arith, lookup-append d k o m, insert_new_fresh k o m fresh, e, equal_iff k d)
  | inr (y, known) ↦ inl (sym (ap (lookup d) (insert_new_known k o m known)) ∙ e)
]

insert_new-none :
    (d k : Bytes) (o : ℕ) (m : Offsets)
    → lookup d (insert_new k o m) ≡ none
    → (lookup d m ≡ none) × (k ≢ d)
insert_new-none d k o m e = elim (Option-cases (lookup k m)) [
  | inl fresh ↦
      ground (arith, lookup-append d k o m, insert_new_fresh k o m fresh, e, equal_iff k d)
  | inr (y, known) ↦
      let missing : lookup d m ≡ none = sym (ap (lookup d) (insert_new_known k o m known)) ∙ e in
      (missing, λ same. cc (ap (λ x. lookup x m) same))
]

-- What one chunk of the local loop does to the offsets.
abbrev with_chunk : IndexEntry → ℕ → Offsets → Offsets
with_chunk e off m = if ltb 0 e.comp_length then insert_new e.digest off m else m

with_chunk-some :
    (d : Bytes) (e : IndexEntry) (off : ℕ) (m : Offsets) {x : ℕ}
    → lookup d (with_chunk e off m) ≡ some x
    → (lookup d m ≡ some x) ⊎ ((0 < e.comp_length) × ((e.digest ≡ d) × (off ≡ x)))
with_chunk-some d e off m {x} h = elim (Bool-cases (ltb 0 e.comp_length)) [
  | inl nonempty ↦
      elim (insert_new-some d e.digest off m
        (sym (ap (λ b. lookup d (if b then insert_new e.digest off m else m)) nonempty) ∙ h)) [
          | inl old ↦ inl old
          | inr new ↦ inr (ground (arith, nonempty), new)
        ]
  | inr empty ↦
      inl (sym (ap (λ b. lookup d (if b then insert_new e.digest off m else m)) empty) ∙ h)
]

with_chunk-none :
    (d : Bytes) (e : IndexEntry) (off : ℕ) (m : Offsets)
    → lookup d (with_chunk e off m) ≡ none
    → (lookup d m ≡ none) × (0 < e.comp_length → e.digest ≢ d)
with_chunk-none d e off m h = elim (Bool-cases (ltb 0 e.comp_length)) [
  | inl nonempty ↦
      let (missing, apart) =
        insert_new-none d e.digest off m
          (sym (ap (λ b. lookup d (if b then insert_new e.digest off m else m)) nonempty) ∙ h) in
      (missing, λ _. apart)
  | inr empty ↦ (
    sym (ap (λ b. lookup d (if b then insert_new e.digest off m else m)) empty) ∙ h,
    λ positive. ground (arith, empty, positive),
  )
]

local_offsets-some :
    (d : Bytes) (es : List IndexEntry) (off : ℕ) (m : Offsets) {x : ℕ}
    → lookup d (local_offsets es off m) ≡ some x
    → (lookup d m ≡ some x) ⊎ Match d x es off
unfolding local_offsets
local_offsets-some d [] off m h = inl h
local_offsets-some d (e ∷ es) off m h = elim (local_offsets-some d es _ _ h) [
  | inr later ↦ inr record {
    entry = later.entry;
    stands = there e es later.stands;
    same_digest = later.same_digest;
    nonempty = later.nonempty;
  }
  | inl before ↦ elim (with_chunk-some d e off m before) [
    | inl old ↦ inl old
    | inr (positive, (same, place)) ↦
        inr record {
          entry = e;
          stands = here es (sym place);
          same_digest = same;
          nonempty = positive;
        }
  ]
]

local_offsets-none :
    (d : Bytes) (es : List IndexEntry) (off : ℕ) (m : Offsets)
    → lookup d (local_offsets es off m) ≡ none
    → (lookup d m ≡ none) × NoMatch d es
unfolding local_offsets
local_offsets-none d [] off m h = (h, tt)
local_offsets-none d (e ∷ es) off m h =
    let (before, later) = local_offsets-none d es _ _ h in
    let (missing, apart) = with_chunk-none d e off m before in (missing, (apart, later))

-- What the source `s` of the target chunk `e`, the `i`-th, at body offset `off`, has to be.
abbrev pub Sourced : List IndexEntry → IndexEntry → ℕ → ℕ → ChunkSource → Type 0
Sourced es e i off s =
    (s.index ≡ i)
    × ((s.size ≡ e.comp_length)
        × ((e.comp_length ≡ 0 → s.is_local ≡ true)
            × (0 < e.comp_length
                → ((s.is_local ≡ true) × Match e.digest s.offset es 0)
                  ⊎ ((s.is_local ≡ false) × ((s.offset ≡ off) × NoMatch e.digest es)))))

-- The sources follow the target chunks one for one, the first of which is the `i`-th, at `off`.
pub data Follows (es : List IndexEntry) : List IndexEntry → List ChunkSource → ℕ → ℕ → Type 0 where
  done : {i off : ℕ} → Follows es [] [] i off
  next :
      {i off : ℕ} (e : IndexEntry) (s : ChunkSource) {ts : List IndexEntry} {ss : List ChunkSource}
      → Sourced es e i off s
      → Follows es ts ss (i + 1) ((off + e.comp_length) % u64_mod)
      → Follows es (e ∷ ts) (s ∷ ss) i off

not_before :
    {d : Bytes} {o : ℕ} {es : List IndexEntry}
    → (lookup d [] ≡ some o) ⊎ Match d o es 0
    → Match d o es 0
unfolding lookup
not_before (inl h) = cc h
not_before (inr match) = match

-- `source_of`, with the two values it branches on named.
split_source :
    (es : List IndexEntry) (e : IndexEntry) (i off : ℕ) (empty : Bool) (found : Option ℕ)
    → (e.comp_length == 0) ≡ empty
    → lookup e.digest (local_offsets es 0 []) ≡ found
    → Sourced es e i off (
        if empty
        then record { index = i; is_local = true; offset = 0; size = e.comp_length }
        else elim found [
          | some o ↦ record { index = i; is_local = true; offset = o; size = e.comp_length }
          | none ↦ record { index = i; is_local = false; offset = off; size = e.comp_length }
        ])
split_source es e i off true found empty h =
    (refl, (refl, (λ _. refl, λ positive. ground (arith, empty, positive))))
split_source es e i off false (some o) nonempty h =
    (refl, (refl, (λ _. refl, λ _. inl (refl, not_before (local_offsets-some e.digest es 0 [] h)))))
split_source es e i off false none nonempty h = (
  refl,
  (
    refl,
    (
      λ zero_length. ground (arith, nonempty, zero_length),
      λ _. inr (refl, (refl, (local_offsets-none e.digest es 0 [] h).1)),
    ),
  ),
)

source_of-Sourced :
    (es : List IndexEntry) (e : IndexEntry) (i off : ℕ)
    → Sourced es e i off (source_of (local_offsets es 0 []) e i off)
unfolding source_of
source_of-Sourced es e i off =
    split_source es e i off (e.comp_length == 0) (lookup e.digest (local_offsets es 0 [])) refl refl

plan_sources-Follows :
    (es ts : List IndexEntry) (i off : ℕ)
    → Follows es ts (plan_sources (local_offsets es 0 []) ts i off) i off
unfolding plan_sources
plan_sources-Follows es [] i off = done
plan_sources-Follows es (e ∷ ts) i off =
    next e _ (source_of-Sourced es e i off) (plan_sources-Follows es ts (i + 1) _)

-- The local chunks and the target's are digested alike, or there is no local chunk.
types_agree_iff :
    (local : Option Index) (target : Index)
    → (types_agree local target ≡ true)
      ↔ ((local_chunks local ≡ []) ⊎ (local_type local ≡ target.chunk_checksum_type))
unfolding types_agree
types_agree_iff none target = (λ _. inl refl, λ _. refl)
types_agree_iff (some idx) target = elim (List-cases idx.chunks) [
  | inl empty ↦ (λ _. inl empty, λ _. rw empty)
  | inr (e, (es, chunks)) ↦
      let compared : types_agree (some idx) target
          ≡ (idx.chunk_checksum_type == target.chunk_checksum_type) =
        rw chunks in
      (
        λ h. inr ((==_iff _ _).0 (sym compared ∙ h)),
        λ h. compared ∙ elim h [ inl no_chunks ↦ cc | inr same ↦ (==_iff _ _).1 same ],
      )
]

-- A plan is made exactly when the local file has no chunks or the two checksum types are equal;
-- otherwise the error names both types. A plan has one source for each chunk of the target, in
-- order, with its position and its length: an empty chunk is local, a chunk that some non-empty
-- local chunk has the digest of is local, at that chunk's offset, and any other chunk is fetched
-- from its own offset in the target's body (offsets are uint64s).
pub plan_delta-Follows :
    (local : Option Index) (target : Index)
    → (((local_chunks local ≡ []) ⊎ (local_type local ≡ target.chunk_checksum_type))
        × ((p : DeltaPlan) × ((plan_delta local target ≡ ok p)
              × Follows (local_chunks local) target.chunks p.sources 0 0)))
      ⊎ ((local_chunks local ≢ [])
          × ((local_type local ≢ target.chunk_checksum_type)
              × (plan_delta local target
                  ≡ err (checksum_types_differ (local_type local) target.chunk_checksum_type))))
unfolding plan_delta
plan_delta-Follows local target = elim (Bool-cases (types_agree local target)) [
  | inl agree ↦ inl (
    (types_agree_iff local target).0 agree,
    (record { sources = _ }, (rw (agree, plan_delta), plan_sources-Follows _ _ 0 0)),
  )
  | inr differ ↦ inr (
    λ none_there. cc ((types_agree_iff local target).1 (inl none_there)),
    (λ same. cc ((types_agree_iff local target).1 (inr same)), rw (differ, plan_delta)),
  )
]
