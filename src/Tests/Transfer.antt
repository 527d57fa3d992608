-- ===== src/Tests/Transfer.antt =====
-- The theorems on downloads and on the commands, applied to a file of three chunks.
use zchunk.Prelude.{
  ℕ, ◌≡◌, ◌≢◌, ◌⊎◌, ◌≤◌, ◌+◌, ◌%◌, ◌∙◌, sym, ap, refl, inl, inr, List, [], ◌∷◌, ◌++◌, true, false,
  some, none, leb→le, length, take, drop, replicate, lt_wf, arith,
}
use zchunk.Go.Result.{ok, max_int, u64_mod}
use zchunk.Go.Reader.{Bytes}
use zchunk.Go.Writer.{write, buffer}
use zchunk.CompressedInt.{append_loop, append_compressed_int}
use zchunk.Checksum.{size, sum, new_hash}
use zchunk.Lead.{Lead, equal, magic, detached_magic}
use zchunk.Preface.{
  Preface, valid, has_flag, uncompressed_source, unknown_bits, append_elements, preface_bytes,
}
use zchunk.Index.{IndexEntry, Index, append_entry, append_entries, index_bytes}
use zchunk.Index.RoundTrip.{IsIndex}
use zchunk.Signatures.{signatures_bytes}
use zchunk.File.{
  or_nil, or_no_signatures, with_data_checksum, header_body, assemble, build_header, file_bytes,
}
use zchunk.Header.{RemoteHeader, RangeReader}
use zchunk.Header.Detached.{IsCarrier}
use zchunk.Header.Remote.{Serves}
use zchunk.Delta.{
  DeltaPlan, lookup, insert_new, local_offsets, source_of, plan_sources, types_agree, plan_delta,
}
use zchunk.Delta.Plan.{Match, Stands, here, there, Follows, done, next}
use zchunk.Extract.Account.{Accounts}
use zchunk.Assemble.{
  ReaderAt, is_fetched, runs_from, remote_runs, fetch_run, result_of, run_at, read_local, cut,
  verify_write, write_piece, split, split_first, start_run, from_source, next_piece, assemble_from,
  assemble_with, assemble_body,
}
use zchunk.Assemble.Complete.{Pieces, assemble_body-Pieces}
use zchunk.Download.{
  write_body, write_parts, offset_range, embedded_header, check_data, download_delta_with_header,
  download_delta,
}
use zchunk.Download.Complete.{Reusable, download_delta-file_bytes}
use zchunk.Download.Checked.{
  Downloaded, download_delta_with_header-Downloaded, download_delta-Accounts,
}
use zchunk.Cli.{plain_preface, section}
use zchunk.Tests.{toy_hashes}
use zchunk.Tests.Fetches.{stored_as, no_dict, fresh_chunk, old_chunk, a_target}

abbrev pub a_body : Bytes
a_body = fresh_chunk ++ old_chunk

abbrev pub old_index : Index
old_index = record { chunk_checksum_type = 3; chunks = no_dict ∷ stored_as old_chunk ∷ [] }

abbrev old_body : ReaderAt
old_body = section old_chunk

abbrev head_or_zero : Bytes → ℕ
head_or_zero [] = 0
head_or_zero (b ∷ bs) = b

-- `Stands` by recursion on the chunks.
abbrev Stood : IndexEntry → ℕ → List IndexEntry → ℕ → Type 0
Stood e o [] off = ⊥
Stood e o (e' ∷ es) off = ((e ≡ e') × (o ≡ off)) ⊎ Stood e o es ((off + e'.comp_length) % u64_mod)

Stands-Stood :
    {e : IndexEntry} {o : ℕ} {es : List IndexEntry} {off : ℕ} → Stands e o es off → Stood e o es off
Stands-Stood (here es p) = inl (refl, p)
Stands-Stood (there e' es s) = inr (Stands-Stood s)

-- A match with the old file is its second chunk.
old_only :
    (d : Bytes) (o : ℕ)
    → Match d o old_index.chunks 0
    → (d ≡ (stored_as old_chunk).digest) × (o ≡ 0)
old_only d o m = elim (Stands-Stood m.stands) [
  | inl (first, _) ↦
      absurd (omega (arith, m.nonempty, ap (λ (e : IndexEntry). e.comp_length) first))
  | inr (inl (second, at_start)) ↦
      (sym m.same_digest ∙ ap (λ (e : IndexEntry). e.digest) second, omega (arith, at_start))
  | inr (inr no_way) ↦ absurd no_way
]

-- The dictionary's digest and that of the fresh chunk are not that of the old one.
unlike_old : (d : Bytes) → head_or_zero d ≢ 7 → d ≢ (stored_as old_chunk).digest
unfolding sum new_hash size
unlike_old d other same = other (ap head_or_zero same)

the_parts :
    Pieces toy_hashes 3 old_body old_index.chunks a_target.chunks
      ([] ∷ fresh_chunk ∷ old_chunk ∷ [])
unfolding sum new_hash size section
the_parts = (
  record {
    whole = refl;
    digest = λ some_bytes. ground (arith, some_bytes);
    copies = λ some_bytes o m.
        absurd (unlike_old (replicate 16 0) (λ e. ground (arith, e)) (old_only _ o m).0);
  },
  (
    record {
      whole = refl;
      digest = λ _. refl;
      copies = λ some_bytes o m.
          absurd
            (unlike_old (stored_as fresh_chunk).digest (λ e. ground (arith, e)) (old_only _ o m).0);
    },
    (
      record {
        whole = refl;
        digest = λ _. refl;
        copies =
            λ some_bytes o m. ap (λ x. old_body x 2) (old_only (stored_as old_chunk).digest o m).1;
      },
      tt,
    ),
  ),
)

abbrev a_remote : RangeReader
a_remote offset n = ok (take n (drop offset a_body))

served : {file : Bytes} → Serves (λ offset n. ok (take n (drop offset file))) file
served = record { ranges = λ offset n some_bytes inside. refl }

abbrev a_fetch : DeltaPlan
a_fetch = record {
  sources =
      record { index = 0; is_local = true; offset = 0; size = 0 }
      ∷ record { index = 1; is_local = false; offset = 0; size = 3 }
      ∷ record { index = 2; is_local = true; offset = 0; size = 2 }
      ∷ [];
}

a_fetch_follows : Follows old_index.chunks a_target.chunks a_fetch.sources 0 0
unfolding sum new_hash size
a_fetch_follows =
    next no_dict _ (refl, (refl, (λ _. refl, λ some_bytes. ground (arith, some_bytes))))
      (next (stored_as fresh_chunk) _
        (
          refl,
          (
            refl,
            (
              λ empty. ground (arith, empty),
              λ _. inr (
                refl,
                (
                  refl,
                  (
                    λ some_bytes. ground (arith, some_bytes),
                    (
                      λ _ same.
                          unlike_old (stored_as fresh_chunk).digest (λ e. ground (arith, e))
                            (sym same),
                      tt,
                    ),
                  ),
                ),
              ),
            ),
          ),
        )
        (next (stored_as old_chunk) _
          (
            refl,
            (
              refl,
              (
                λ _. refl,
                λ _. inl (
                  refl,
                  record {
                    entry = stored_as old_chunk;
                    stands = there no_dict _ (here [] refl);
                    same_digest = refl;
                    nonempty = omega arith;
                  },
                ),
              ),
            ),
          )
          done))

assemble_body-Pieces_example :
    assemble_body toy_hashes a_fetch a_target old_body a_remote buffer (6 ∷ [])
    ≡ record { out = (6 ∷ []) ++ a_body; count = length a_body % u64_mod; result = ok tt }
assemble_body-Pieces_example =
    assemble_body-Pieces toy_hashes a_target old_body old_index.chunks a_remote a_fetch
      ([] ∷ fresh_chunk ∷ old_chunk ∷ []) a_body (6 ∷ []) {m = 16} (unfold size in refl)
      (omega arith) served a_fetch_follows the_parts refl

pub reusable : Reusable toy_hashes (some old_index) old_body a_target a_body
unfolding size
reusable = record {
  digest_size = 16;
  known = refl;
  agree = inr refl;
  chunks = [] ∷ fresh_chunk ∷ old_chunk ∷ [];
  pieces = the_parts;
  whole = refl;
}

abbrev pub a_preface : Preface
a_preface = plain_preface 0

pub plain_fields : IsCarrier a_preface
plain_fields = record { few_elements = omega arith; elements = tt }

pub an_index : IsIndex false a_target
an_index = record {
  type_fits = omega arith;
  chunks_fit = (
    record { comp_fits = omega arith; full_fits = omega arith; no_digest = λ h. refl },
    (
      record { comp_fits = omega arith; full_fits = omega arith; no_digest = λ h. refl },
      (record { comp_fits = omega arith; full_fits = omega arith; no_digest = λ h. refl }, tt),
    ),
  );
  few_chunks = omega arith;
}

abbrev pub a_file : Bytes
a_file = or_nil (file_bytes toy_hashes 1 a_preface a_target none a_body)

abbrev a_reader : RangeReader
a_reader offset n = ok (take n (drop offset a_file))

download_delta-file_bytes_example :
    download_delta toy_hashes a_reader (some old_index) old_body buffer (6 ∷ [])
    ≡ record { out = (6 ∷ []) ++ a_file; count = length a_file % u64_mod; result = ok tt }
unfolding file_bytes uncompressed_source build_header header_body or_no_signatures
    with_data_checksum assemble sum new_hash signatures_bytes preface_bytes append_elements
    unknown_bits valid has_flag index_bytes size append_entries append_entry append_compressed_int
    append_loop lt_wf
download_delta-file_bytes_example =
    download_delta-file_bytes toy_hashes 1 a_preface a_target none a_body a_file a_reader
      (some old_index) old_body (6 ∷ []) refl plain_fields an_index (leb→le _ _ refl)
      (leb→le _ _ refl) served reusable

download_delta-Accounts_example :
    Accounts
      (6 ∷ [])
      0
      (download_delta toy_hashes a_reader (some old_index) old_body (λ out p. some 1) (6 ∷ []))
download_delta-Accounts_example =
    download_delta-Accounts toy_hashes a_reader (some old_index) old_body (λ out p. some 1) (6 ∷ [])

abbrev a_detached_lead : Lead
a_detached_lead = record {
  detached = true;
  checksum_type = 1;
  header_size = 2;
  header_checksum = replicate 32 4;
}

abbrev a_remote_header : RemoteHeader
a_remote_header = record {
  lead = a_detached_lead;
  preface = record {
    data_checksum = or_nil (sum toy_hashes 1 a_body);
    flags = 0;
    compression_type = 0;
    optional_elements = [];
  };
  index = a_target;
  signatures = record { count = 0 };
  header_bytes = detached_magic ++ 1 ∷ 2 ∷ [];
  body_offset = 0;
}

download_delta_with_header-Downloaded_example :
    Downloaded toy_hashes a_remote_header (some old_index) (6 ∷ []) (
      download_delta_with_header toy_hashes a_remote_header a_remote
        (some old_index)
        old_body
        buffer
        (6 ∷ []))
unfolding download_delta_with_header write_parts write_body embedded_header check_data offset_range
    plan_delta types_agree local_offsets lookup insert_new plan_sources source_of assemble_body
    assemble_with assemble_from next_piece from_source start_run split_first split cut run_at
    remote_runs runs_from is_fetched fetch_run result_of read_local section write_piece verify_write
    write sum new_hash size equal uncompressed_source has_flag
download_delta_with_header-Downloaded_example =
    download_delta_with_header-Downloaded toy_hashes a_remote_header a_remote (some old_index)
      old_body buffer (6 ∷ []) refl

abbrev detached : Bytes
detached = or_nil (build_header toy_hashes detached_magic 1 a_preface a_target none a_body)

abbrev embedded : Bytes
embedded = or_nil (build_header toy_hashes magic 1 a_preface a_target none a_body)

detached_made :
    build_header toy_hashes detached_magic 1 a_preface a_target none a_body ≡ ok detached
unfolding build_header header_body or_no_signatures with_data_checksum assemble sum new_hash
    signatures_bytes preface_bytes append_elements unknown_bits valid has_flag uncompressed_source
    index_bytes size append_entries append_entry append_compressed_int append_loop lt_wf
detached_made = refl

detached_fits : (length detached ≤ max_int) × (length (detached ++ a_body) ≤ max_int)
unfolding build_header header_body or_no_signatures with_data_checksum assemble sum new_hash
    signatures_bytes preface_bytes append_elements unknown_bits valid has_flag uncompressed_source
    index_bytes size append_entries append_entry append_compressed_int append_loop lt_wf
detached_fits = (leb→le _ _ refl, leb→le _ _ refl)
