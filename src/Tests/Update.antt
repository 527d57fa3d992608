-- ===== src/Tests/Update.antt =====
-- A new version of a file, downloaded over the old one.
use zchunk.Prelude.{
  ℕ, ◌≡◌, ◌≢◌, ◌%◌, ap, refl, false, List, [], ◌∷◌, ◌++◌, some, none, leb→le, length, take, drop,
  lt_wf, arith,
}
use zchunk.Go.Result.{Result, ok, u64_mod}
use zchunk.Go.Reader.{Bytes}
use zchunk.Go.Writer.{buffer}
use zchunk.CompressedInt.{append_loop, append_compressed_int}
use zchunk.Checksum.{size, sum, new_hash}
use zchunk.Preface.{
  valid, has_flag, uncompressed_source, unknown_bits, append_elements, preface_bytes,
}
use zchunk.Index.{append_entry, append_entries, index_bytes}
use zchunk.Index.RoundTrip.{IsIndex}
use zchunk.Signatures.{signatures_bytes}
use zchunk.Codec.{new_chunk_encoder, dict_option, is_structured_dict, compress, compress_chunk}
use zchunk.File.{
  or_nil, or_no_signatures, with_data_checksum, header_body, assemble, build_header, file_bytes,
}
use zchunk.Header.{RangeReader}
use zchunk.Header.Remote.{Serves}
use zchunk.Builder.{Builder, new_builder, add_dict, add_chunk, add_chunks}
use zchunk.Builder.Chunks.{chunks_of}
use zchunk.Cli.{plain_preface, section}
use zchunk.Download.{download_delta}
use zchunk.Download.Built.{NoCollision, download_delta-add_chunks}
use zchunk.Tests.{toy_hashes, toy_zstd}

abbrev built : Result Builder → Builder
built (ok b) = b
built _ = record {
  enc = record { ct = 0; enc = none };
  idx = record { chunk_checksum_type = 0; chunks = [] };
  body = [];
}

abbrev a_dict : Bytes
a_dict = 9 ∷ []

abbrev olds : List Bytes
olds = (1 ∷ 2 ∷ []) ∷ []

abbrev news : List Bytes
news = (3 ∷ []) ∷ (1 ∷ 2 ∷ []) ∷ []

abbrev start : Builder
start = built (new_builder toy_hashes toy_zstd 2 3 a_dict)

abbrev old : Builder
old = built (add_chunks toy_hashes start olds)

abbrev new : Builder
new = built (add_chunks toy_hashes start news)

abbrev second : Bytes → ℕ
second (a ∷ b ∷ bs) = b
second _ = 0

differ : (c d : Bytes) (e : Bytes) (f : Bytes) → second e ≢ second f → e ≡ f → c ≡ d
differ c d e f apart same = absurd (apart (ap second same))

apart :
    NoCollision toy_hashes 3 (chunks_of old.idx.chunks old.body) (chunks_of new.idx.chunks new.body)
unfolding add_chunks add_chunk compress_chunk compress add_dict new_builder valid size
    new_chunk_encoder dict_option is_structured_dict sum new_hash
apart = (
  (λ same. refl, (λ same. differ _ _ _ _ (λ e. ground (arith, e)) same, tt)),
  (
    (
      λ same. differ _ _ _ _ (λ e. ground (arith, e)) same,
      (λ same. differ _ _ _ _ (λ e. ground (arith, e)) same, tt),
    ),
    ((λ same. differ _ _ _ _ (λ e. ground (arith, e)) same, (λ same. refl, tt)), tt),
  ),
)

abbrev new_file : Bytes
new_file = or_nil (file_bytes toy_hashes 1 (plain_preface 2) new.idx none new.body)

abbrev a_reader : RangeReader
a_reader offset n = ok (take n (drop offset new_file))

served : Serves a_reader new_file
served = record { ranges = λ offset n some_bytes inside. refl }

new_index : IsIndex false new.idx
unfolding add_chunks add_chunk compress_chunk compress add_dict new_builder valid size
    new_chunk_encoder dict_option is_structured_dict
new_index = record {
  type_fits = omega arith;
  chunks_fit = (
    record { comp_fits = omega arith; full_fits = omega arith; no_digest = λ h. refl },
    (
      record { comp_fits = omega arith; full_fits = omega arith; no_digest = λ h. refl },
      (record { comp_fits = omega arith; full_fits = omega arith; no_digest = λ h. refl }, tt),
    ),
  );
  few_chunks = omega arith;
}

download_delta-add_chunks_example :
    download_delta toy_hashes a_reader (some old.idx) (section old.body) buffer (6 ∷ [])
    ≡ record { out = (6 ∷ []) ++ new_file; count = length new_file % u64_mod; result = ok tt }
unfolding add_chunks add_chunk compress_chunk compress add_dict new_builder new_chunk_encoder
    dict_option is_structured_dict file_bytes uncompressed_source build_header header_body
    or_no_signatures with_data_checksum assemble sum new_hash signatures_bytes preface_bytes
    append_elements unknown_bits valid has_flag index_bytes size append_entries append_entry
    append_compressed_int append_loop lt_wf
download_delta-add_chunks_example =
    download_delta-add_chunks toy_hashes toy_zstd toy_zstd 2 2 3 1 a_dict a_dict olds news start old
      start new (plain_preface 2) new_file a_reader (6 ∷ []) refl refl refl refl (leb→le _ _ refl)
      apart refl (record { few_elements = omega arith; elements = tt }) new_index (leb→le _ _ refl)
      (leb→le _ _ refl) served
