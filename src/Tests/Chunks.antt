-- ===== src/Tests/Chunks.antt =====
-- The theorems on chunks, applied to a small body with a dictionary.
use zchunk.Prelude.{
  ℕ, ◌≡◌, ◌≢◌, ◌%◌, ◌⊎◌, ◌↔◌, All, inl, inr, refl, List, [], ◌∷◌, ◌++◌, some, none, leb→le, length,
  flatten, replicate, true, false,
}
use zchunk.Go.Error.{checksum_types_differ, truncated}
use zchunk.Go.Result.{Result, ok, err, u64_mod}
use zchunk.Go.Reader.{Bytes, at_end}
use zchunk.Go.Writer.{buffer}
use zchunk.Checksum.{size}
use zchunk.Preface.{valid}
use zchunk.Lead.{equal}
use zchunk.Index.{IndexEntry, Index}
use zchunk.Codec.{is_structured_dict, dict_option, new_chunk_encoder, compress, compress_chunk}
use zchunk.Builder.{Builder, add_dict, new_builder, add_chunk, add_chunks}
use zchunk.Builder.RoundTrip.{extract-add_chunks}
use zchunk.Extract.{extract}
use zchunk.Extract.Checked.{AllExtracted, extract-AllExtracted}
use zchunk.Extract.Account.{Accounts, extract-Accounts}
use zchunk.Delta.{
  DeltaPlan, local_chunks, local_type, plan_delta, types_agree, local_offsets, lookup, insert_new,
  plan_sources, source_of,
}
use zchunk.Delta.Totals.{body_length}
use zchunk.Assemble.{remote_runs, assemble_body}
use zchunk.Assemble.Unfetched.{Held, remote_runs-Held, assemble_body-Held}
use zchunk.Cli.Remote.{report_delta_size}
use zchunk.Cli.Tally.{Tally}
use zchunk.Cli.Transfer.{requested, report_delta_size-remote_runs}
use zchunk.Delta.Plan.{here, there, Follows, plan_delta-Follows}
use zchunk.Tests.{toy_hashes, toy_zstd}

abbrev built : Result Builder → Builder
built (ok b) = b
built _ = record {
  enc = record { ct = 0; enc = none };
  idx = record { chunk_checksum_type = 0; chunks = [] };
  body = [];
}

abbrev a_dict : Bytes
a_dict = 9 ∷ 9 ∷ []

abbrev plains : List Bytes
plains = (1 ∷ 2 ∷ []) ∷ [] ∷ (3 ∷ []) ∷ []

abbrev fresh : Builder
fresh = built (new_builder toy_hashes toy_zstd 2 3 a_dict)

abbrev filled : Builder
filled = built (add_chunks toy_hashes fresh plains)

fresh_made : new_builder toy_hashes toy_zstd 2 3 a_dict ≡ ok fresh
unfolding new_builder valid size new_chunk_encoder dict_option is_structured_dict
fresh_made = refl

filled_made : add_chunks toy_hashes fresh plains ≡ ok filled
unfolding add_chunks add_chunk compress add_dict new_builder valid size new_chunk_encoder
    dict_option is_structured_dict
filled_made = refl

extract-add_chunks_example :
    extract toy_hashes toy_zstd filled.idx 2 buffer at_end (filled.body ++ 8 ∷ []) (6 ∷ [])
    ≡ record {
      out = (6 ∷ []) ++ flatten plains;
      count = length (flatten plains) % u64_mod;
      result = ok tt;
    }
unfolding add_chunks add_chunk compress_chunk compress add_dict new_builder valid size
    new_chunk_encoder dict_option is_structured_dict
extract-add_chunks_example =
    extract-add_chunks toy_hashes toy_zstd 2 3 a_dict plains fresh filled at_end (8 ∷ []) (6 ∷ [])
      fresh_made filled_made (leb→le _ _ refl)

-- A writer that takes one byte of every slice and fails.
extract-AllExtracted_example :
    AllExtracted toy_hashes filled.idx.chunk_checksum_type filled.idx.chunks filled.body
      (6 ∷ [])
      (extract toy_hashes toy_zstd filled.idx 2 (λ out p. some 1) at_end filled.body (6 ∷ []))
extract-AllExtracted_example =
    extract-AllExtracted toy_hashes toy_zstd filled.idx 2 (λ out p. some 1) at_end filled.body
      (6 ∷ [])

extract-Accounts_example :
    Accounts
      (6 ∷ [])
      0
      (extract toy_hashes toy_zstd filled.idx 2 (λ out p. some 1) at_end filled.body (6 ∷ []))
extract-Accounts_example =
    extract-Accounts toy_hashes toy_zstd filled.idx 2 (λ out p. some 1) at_end filled.body (6 ∷ [])

abbrev entry : ℕ → ℕ → IndexEntry
entry d n = record {
  digest = replicate 16 d;
  uncompressed_digest = none;
  comp_length = n;
  full_length = n;
}

abbrev old_index : Index
old_index = record { chunk_checksum_type = 3; chunks = entry 0 0 ∷ entry 1 10 ∷ entry 2 20 ∷ [] }

abbrev new_index : Index
new_index = record { chunk_checksum_type = 3; chunks = entry 0 0 ∷ entry 2 20 ∷ entry 4 5 ∷ [] }

plan_delta-Follows_example :
    (((local_chunks (some old_index) ≡ []) ⊎ (local_type (some old_index) ≡ 3))
      × ((p : DeltaPlan) × ((plan_delta (some old_index) new_index ≡ ok p)
            × Follows old_index.chunks new_index.chunks p.sources 0 0)))
    ⊎ ((local_chunks (some old_index) ≢ [])
        × ((local_type (some old_index) ≢ 3)
            × (plan_delta (some old_index) new_index
                ≡ err (checksum_types_differ (local_type (some old_index)) 3))))
plan_delta-Follows_example = plan_delta-Follows (some old_index) new_index

abbrev a_plan : DeltaPlan
a_plan = record {
  sources =
      record { index = 0; is_local = true; offset = 0; size = 0 }
      ∷ record { index = 1; is_local = true; offset = 10; size = 20 }
      ∷ record { index = 2; is_local = false; offset = 20; size = 5 }
      ∷ [];
}

report_delta_size-remote_runs_example :
    let r = report_delta_size a_plan in
    (reused missing : ℕ) × (r.chunks ≡ length new_index.chunks)
    × Tally old_index.chunks new_index.chunks r.reuse_chunks r.fetch_chunks reused missing
    × (r.reuse ≡ reused % u64_mod)
    × (r.fetch ≡ missing % u64_mod)
    × (r.fetch ≡ requested (remote_runs a_plan) % u64_mod)
    × (r.total ≡ body_length new_index.chunks % u64_mod)
unfolding plan_delta types_agree local_offsets lookup insert_new plan_sources source_of equal
report_delta_size-remote_runs_example =
    report_delta_size-remote_runs (some old_index) new_index {p = a_plan} refl

-- The old file without one of its chunks.
abbrev shorter_index : Index
shorter_index = record { chunk_checksum_type = 3; chunks = entry 0 0 ∷ entry 2 20 ∷ [] }

abbrev shorter_plan : DeltaPlan
shorter_plan = record {
  sources =
      record { index = 0; is_local = true; offset = 0; size = 0 }
      ∷ record { index = 1; is_local = true; offset = 10; size = 20 }
      ∷ [];
}

shorter_planned : plan_delta (some old_index) shorter_index ≡ ok shorter_plan
unfolding plan_delta types_agree local_offsets lookup insert_new plan_sources source_of equal
shorter_planned = refl

shorter-Held : All (Held old_index.chunks) shorter_index.chunks
shorter-Held = (
  inl refl,
  (
    inr (
      10,
      record {
        entry = entry 2 20;
        stands = there (entry 0 0) _ (there (entry 1 10) _ (here [] refl));
        same_digest = refl;
        nonempty = leb→le 1 20 refl;
      },
    ),
    tt,
  ),
)

remote_runs-Held_example :
    (remote_runs shorter_plan ≡ []) ↔ All (Held old_index.chunks) shorter_index.chunks
remote_runs-Held_example = remote_runs-Held (some old_index) shorter_index shorter_planned

-- One remote that fails and one that answers with zeros.
assemble_body-Held_example :
    assemble_body toy_hashes shorter_plan shorter_index
      (λ off n. (replicate n 7, none))
      (λ off n. err truncated)
      buffer
      []
    ≡ assemble_body toy_hashes shorter_plan shorter_index
        (λ off n. (replicate n 7, none))
        (λ off n. ok (replicate n 0))
        buffer
        []
assemble_body-Held_example =
    assemble_body-Held toy_hashes shorter_plan (some old_index) shorter_index
      (λ off n. (replicate n 7, none)) (λ off n. err truncated) (λ off n. ok (replicate n 0)) buffer
      [] shorter_planned shorter-Held
