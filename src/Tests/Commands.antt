-- ===== src/Tests/Commands.antt =====
-- The theorems on the commands and on the HTTP range reader, applied to a small file.
use zchunk.Prelude.{
  false, ltb, if◌then◌else◌, ◌≡◌, ◌+◌, ◌-◌, ◌%◌, refl, [], ◌∷◌, ◌++◌, some, none, leb→le, length,
  take, drop, lt_wf, arith,
}
use zchunk.Go.Error.{truncated}
use zchunk.Go.Result.{ok, err, u64_mod}
use zchunk.Go.Reader.{Bytes, at_end}
use zchunk.Go.Writer.{buffer}
use zchunk.CompressedInt.{append_loop, append_compressed_int}
use zchunk.Checksum.{size, sum, new_hash}
use zchunk.Lead.{detached_magic}
use zchunk.Preface.{
  valid, has_flag, uncompressed_source, unknown_bits, append_elements, preface_bytes,
}
use zchunk.Index.{append_entry, append_entries, index_bytes}
use zchunk.Signatures.{signatures_bytes}
use zchunk.File.{
  or_nil, or_no_signatures, with_data_checksum, header_body, assemble, build_header, file_bytes,
}
use zchunk.Header.Remote.{Serves}
use zchunk.Http.{Client, Network, partial_content, new_http_range_reader, read_range}
use zchunk.Http.Range.{AnswersFrom, read_range-Serves}
use zchunk.Index.RoundTrip.{IsIndex}
use zchunk.Cli.WithHeader.{download-detached_header}
use zchunk.Cli.Remote.{download, download-file_bytes}
use zchunk.Cli.Detached.{detached_header-file_bytes}
use zchunk.Tests.{toy_hashes}
use zchunk.Tests.Fetches.{old_chunk, a_target}
use zchunk.Tests.Transfer.{old_index, reusable, plain_fields, an_index, a_body, a_preface, a_file}

-- A server that gives what is asked for, and a network that takes every URL.
abbrev a_client : Client
a_client r = ok (record {
  status = partial_content;
  body = take (r.last + 1 - r.first) (drop r.first a_body);
  fault = none;
})

abbrev a_network : Network
a_network = record { request_error = λ url. none; default_client = a_client }

read_range-Serves_example :
    Serves
      (read_range a_network (new_http_range_reader a_network (9 ∷ []) 2 (some a_client)))
      (drop 2 a_body)
read_range-Serves_example =
    read_range-Serves a_network a_client (9 ∷ []) a_body 2 refl
      (record { partial = λ first last ordered inside. refl }) (omega arith) (omega arith)

abbrev old_file : Bytes
old_file = or_nil (file_bytes toy_hashes 1 a_preface old_index none old_chunk)

old_index_fits : IsIndex false old_index
old_index_fits = record {
  type_fits = omega arith;
  chunks_fit = (
    record { comp_fits = omega arith; full_fits = omega arith; no_digest = λ h. refl },
    (record { comp_fits = omega arith; full_fits = omega arith; no_digest = λ h. refl }, tt),
  );
  few_chunks = omega arith;
}

abbrev file_network : Network
file_network = record {
  request_error = λ url. none;
  default_client = λ r. ok (record {
    status = partial_content;
    body = take (r.last + 1 - r.first) (drop r.first a_file);
    fault = none;
  });
}

download-file_bytes_example :
    download toy_hashes file_network (9 ∷ []) (some (at_end, old_file)) none buffer (6 ∷ [])
    ≡ record { out = (6 ∷ []) ++ a_file; count = length a_file % u64_mod; result = ok tt }
unfolding file_bytes uncompressed_source build_header header_body or_no_signatures
    with_data_checksum assemble sum new_hash signatures_bytes preface_bytes append_elements
    unknown_bits valid has_flag index_bytes size append_entries append_entry append_compressed_int
    append_loop lt_wf
download-file_bytes_example =
    download-file_bytes toy_hashes file_network (9 ∷ []) 1 1 a_preface a_preface old_index a_target
      none none old_chunk a_body old_file a_file (6 ∷ []) refl plain_fields old_index_fits
      (leb→le _ _ refl) refl plain_fields an_index (leb→le _ _ refl) (leb→le _ _ refl) refl
      (record { partial = λ first last ordered inside. refl }) reusable

abbrev cut_header : Bytes
cut_header = or_nil (build_header toy_hashes detached_magic 1 a_preface a_target none a_body)

-- A server of the body, which answers no other request.
abbrev body_network : Network
body_network = record {
  request_error = λ url. none;
  default_client =
      λ r. if ltb r.first (length cut_header) then err truncated else file_network.default_client r;
}

body_served : AnswersFrom (length cut_header) body_network.default_client (9 ∷ []) a_file
body_served = record {
  partial = λ first last behind ordered inside.
      let served : ltb first (length cut_header) ≡ false = ground (arith, behind) in rw served refl;
}

download-detached_header_example :
    download toy_hashes body_network
      (9 ∷ [])
      (some (at_end, old_file))
      (some (at_end, cut_header))
      buffer
      (6 ∷ [])
    ≡ record { out = (6 ∷ []) ++ a_file; count = length a_file % u64_mod; result = ok tt }
unfolding file_bytes uncompressed_source build_header header_body or_no_signatures
    with_data_checksum assemble sum new_hash signatures_bytes preface_bytes append_elements
    unknown_bits valid has_flag index_bytes size append_entries append_entry append_compressed_int
    append_loop lt_wf
download-detached_header_example =
    download-detached_header toy_hashes body_network (9 ∷ []) 1 1 a_preface a_preface old_index
      a_target none none old_chunk a_body old_file a_file cut_header (6 ∷ []) refl plain_fields
      old_index_fits (leb→le _ _ refl) refl plain_fields an_index (leb→le _ _ refl)
      (detached_header-file_bytes toy_hashes 1 a_preface a_target none a_body a_file at_end refl
        (leb→le _ _ refl))
      refl body_served reusable
