-- ===== src/Tests/Sections.antt =====
-- The theorems on the file's sections, applied to concrete bytes.
use zchunk.Prelude.{
  ◌≡◌, refl, [], ◌∷◌, ◌++◌, true, some, none, lt_wf, leb→le, take, drop, replicate, arith,
}
use zchunk.Go.Result.{Result, ok}
use zchunk.Go.Reader.{Bytes, Reads}
use zchunk.Go.Settled.{Settles}
use zchunk.CompressedInt.{append_loop, append_compressed_int, read_compressed_int}
use zchunk.CompressedInt.RoundTrip.{read_compressed_int-append_compressed_int}
use zchunk.Checksum.{size, new_hash, sum}
use zchunk.Preface.{
  Preface, append_elements, valid, uncompressed_source, has_flag, unknown_bits, read_preface,
  preface_bytes,
}
use zchunk.Preface.RoundTrip.{read_preface-preface_bytes}
use zchunk.Index.{Index, append_entries, append_entry, read_index, index_bytes}
use zchunk.Index.RoundTrip.{IsIndex, read_index-index_bytes}
use zchunk.Index.Total.{read_index-Settles}
use zchunk.Signatures.{signatures_bytes}
use zchunk.File.{or_nil, or_no_signatures, header_body, with_data_checksum, assemble, build_header}
use zchunk.Header.{read_detached_header, RangeReader, read_remote_header, RemoteHeader}
use zchunk.Header.Remote.{Serves, read_remote_header-build_header}
use zchunk.Header.Detached.{Describes, read_detached_header-build_header}
use zchunk.Tests.{toy_hashes}

read_compressed_int-append_compressed_int_example :
    Reads read_compressed_int (append_compressed_int [] 300) 300
read_compressed_int-append_compressed_int_example =
    read_compressed_int-append_compressed_int 300 (omega arith)

abbrev a_preface : Preface
a_preface = record {
  data_checksum = replicate 20 1;
  flags = 6;
  compression_type = 2;
  optional_elements = record { id = 300; content = 1 ∷ 2 ∷ [] } ∷ [];
}

read_preface-preface_bytes_example :
    Reads (read_preface 0) (or_nil (preface_bytes a_preface)) a_preface
unfolding preface_bytes size unknown_bits valid has_flag
read_preface-preface_bytes_example =
    read_preface-preface_bytes 0 a_preface (or_nil (preface_bytes a_preface))
      (record {
        digest_size = refl;
        few_elements = omega arith;
        elements = ((omega arith, omega arith), tt);
      })
      refl

abbrev an_index : Index
an_index = record {
  chunk_checksum_type = 3;
  chunks =
      record {
        digest = replicate 16 0;
        uncompressed_digest = some (replicate 16 0);
        comp_length = 0;
        full_length = 0;
      }
      ∷ record {
        digest = replicate 16 4;
        uncompressed_digest = some (replicate 16 5);
        comp_length = 3;
        full_length = 300;
      }
      ∷ [];
}

an_index_fits : IsIndex true an_index
an_index_fits = record {
  type_fits = omega arith;
  chunks_fit = (
    record { comp_fits = omega arith; full_fits = omega arith; no_digest = λ h. cc },
    (record { comp_fits = omega arith; full_fits = omega arith; no_digest = λ h. cc }, tt),
  );
  few_chunks = omega arith;
}

read_index-index_bytes_example :
    Reads (read_index true) (or_nil (index_bytes an_index true)) an_index
unfolding index_bytes size append_entries append_entry append_compressed_int append_loop lt_wf
read_index-index_bytes_example =
    read_index-index_bytes true an_index (or_nil (index_bytes an_index true)) an_index_fits
      (leb→le _ _ refl) refl

read_index-Settles_example : Settles 1 (read_index true)
read_index-Settles_example = read_index-Settles true

abbrev a_header : Result Bytes
a_header =
    build_header toy_hashes (0 ∷ b'Z' ∷ b'H' ∷ b'R' ∷ b'1' ∷ []) 0 a_preface an_index none
      (1 ∷ 2 ∷ 3 ∷ [])

read_detached_header-build_header_example :
    (rh : RemoteHeader) × Reads (read_detached_header toy_hashes) (or_nil a_header) rh
    × Describes toy_hashes true 0 a_preface an_index none (1 ∷ 2 ∷ 3 ∷ []) (or_nil a_header) rh
unfolding uncompressed_source build_header header_body or_no_signatures with_data_checksum assemble
    sum new_hash signatures_bytes preface_bytes append_elements unknown_bits valid has_flag
    index_bytes size append_entries append_entry append_compressed_int append_loop lt_wf
read_detached_header-build_header_example =
    read_detached_header-build_header toy_hashes true 0 a_preface an_index none (1 ∷ 2 ∷ 3 ∷ [])
      (or_nil a_header)
      (record { few_elements = omega arith; elements = ((omega arith, omega arith), tt) })
      an_index_fits (leb→le _ _ refl) refl

abbrev served : Bytes → RangeReader
served file offset n = ok (take n (drop offset file))

abbrev a_file : Bytes
a_file = or_nil a_header ++ replicate 40 8

served-Serves : Serves (served a_file) a_file
served-Serves = record { ranges = λ offset n some_bytes inside. refl }

read_remote_header-build_header_example :
    (rh : RemoteHeader) × (read_remote_header toy_hashes (served a_file) ≡ ok rh)
    × Describes toy_hashes true 0 a_preface an_index none (1 ∷ 2 ∷ 3 ∷ []) (or_nil a_header) rh
unfolding uncompressed_source build_header header_body or_no_signatures with_data_checksum assemble
    sum new_hash signatures_bytes preface_bytes append_elements unknown_bits valid has_flag
    index_bytes size append_entries append_entry append_compressed_int append_loop lt_wf
read_remote_header-build_header_example =
    read_remote_header-build_header toy_hashes true 0 a_preface an_index none (1 ∷ 2 ∷ 3 ∷ [])
      (or_nil a_header) (replicate 40 8) (served a_file)
      (record { few_elements = omega arith; elements = ((omega arith, omega arith), tt) })
      an_index_fits (leb→le _ _ refl) (leb→le _ _ refl) served-Serves refl
