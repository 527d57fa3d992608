-- ===== src/Tests/Rewrites.antt =====
-- What was read, written again: inputs whose integers are not coded in the shortest way.
use zchunk.Prelude.{
  ◌+◌, ◌≤◌, ◌≡◌, refl, false, none, [], ◌∷◌, ◌++◌, length, replicate, take, drop, lt_wf,
}
use zchunk.Go.Result.{ok, max_int}
use zchunk.Go.Reader.{Bytes, Reads, at_end, read_full}
use zchunk.CompressedInt.{read_loop, read_compressed_int}
use zchunk.CompressedInt.{append_compressed_int, append_loop}
use zchunk.CompressedInt.Shortest.{read_compressed_int-shortest}
use zchunk.Checksum.{size, sum, new_hash}
use zchunk.Lead.{verify_header, Lead, magic, equal, detached_of, read_lead, lead_bytes}
use zchunk.Signatures.{read_signatures}
use zchunk.Header.{RemoteHeader, RangeReader, lead_length, parse_header, read_remote_header}
use zchunk.Header.WellFormed.{IsHeader, from_remote, Returned-IsHeader}
use zchunk.Tests.{toy_hashes}
use zchunk.Lead.Rewrite.{lead_bytes-read_lead}
use zchunk.Index.{
  Index, read_uncompressed_digest, read_entry, read_entries, read_all_entries, parse_buffer,
  parse_index, read_index, index_bytes,
}
use zchunk.Index.WellFormed.{IsWellFormed, read_index-IsWellFormed}
use zchunk.Index.Rewrite.{index_bytes-read_index}
use zchunk.Preface.{
  Preface, has_flag, unknown_bits, valid, read_element, read_elements, read_elements_if,
  uncompressed_source, read_preface,
}
use zchunk.Preface.Rewrite.{Rewritten, read_preface-Rewritten}

-- The compressed length 5 is coded in two bytes.
abbrev padded : Bytes
padded = 150 ∷ 131 ∷ 129 ∷ (replicate 16 4 ++ 5 ∷ 128 ∷ 44 ∷ 130 ∷ 9 ∷ [])

abbrev an_index : Index
an_index = record {
  chunk_checksum_type = 3;
  chunks =
      record {
        digest = replicate 16 4;
        uncompressed_digest = none;
        comp_length = 5;
        full_length = 300;
      }
      ∷ [];
}

read_index-IsWellFormed_example : IsWellFormed false an_index
unfolding read_index parse_index parse_buffer read_all_entries read_entries read_entry
    read_uncompressed_digest read_compressed_int read_loop read_full size
read_index-IsWellFormed_example =
    read_index-IsWellFormed false at_end padded {idx = an_index} {rest = 9 ∷ []} refl

index_bytes-read_index_example :
    (bs : Bytes) × (index_bytes an_index false ≡ ok bs)
    × (length bs ≤ max_int → Reads (read_index false) bs an_index)
unfolding read_index parse_index parse_buffer read_all_entries read_entries read_entry
    read_uncompressed_digest read_compressed_int read_loop read_full size
index_bytes-read_index_example =
    index_bytes-read_index false at_end padded {idx = an_index} {rest = 9 ∷ []} refl

-- The flag of optional elements, coded in two bytes, and none of these.
abbrev flagged : Bytes
flagged = replicate 16 1 ++ 2 ∷ 128 ∷ 130 ∷ 128 ∷ 9 ∷ []

abbrev a_preface : Preface
a_preface = record {
  data_checksum = replicate 16 1;
  flags = 2;
  compression_type = 2;
  optional_elements = [];
}

read_preface-Rewritten_example : Rewritten 3 a_preface
unfolding read_preface read_elements_if read_elements read_element read_compressed_int read_loop
    read_full size has_flag unknown_bits valid
read_preface-Rewritten_example =
    read_preface-Rewritten 3 at_end flagged {p = a_preface} {rest = 9 ∷ []} refl

abbrev a_rest : Bytes
a_rest = 9 ∷ []

-- The integer 5 in three bytes.
read_compressed_int-shortest_example : length (append_compressed_int [] 5) + length a_rest ≤ 4
unfolding read_compressed_int read_loop
read_compressed_int-shortest_example =
    read_compressed_int-shortest at_end (5 ∷ 0 ∷ 128 ∷ 9 ∷ []) {v = 5} {rest = a_rest} refl

-- Both integers of a lead, the type 3 and the header size 7, in two bytes.
abbrev padded_lead : Bytes
padded_lead = magic ++ 3 ∷ 128 ∷ 7 ∷ 128 ∷ (replicate 16 6 ++ 9 ∷ [])

abbrev its_lead : Lead
its_lead = record {
  detached = false;
  checksum_type = 3;
  header_size = 7;
  header_checksum = replicate 16 6;
}

lead_bytes-read_lead_example :
    (bs : Bytes) × (lead_bytes its_lead ≡ ok bs)
    × ((length bs + length a_rest ≤ length padded_lead) × Reads read_lead bs its_lead)
unfolding read_lead detached_of equal read_compressed_int read_loop read_full size
lead_bytes-read_lead_example =
    lead_bytes-read_lead at_end padded_lead {l = its_lead} {rest = 9 ∷ []} refl

-- A header whose digest shows the lead, and the first bytes of the preface.
abbrev shown : Bytes
shown = magic ++ 131 ∷ 170 ∷ replicate 9 1

abbrev a_file : Bytes
a_file =
    magic ++ 131 ∷ 170 ∷ (shown ++ (replicate 16 1 ++ 128 ∷ 130 ∷ (take 23 padded ++ 128 ∷ [])))

abbrev a_remote : RangeReader
a_remote offset n = ok (take n (drop offset a_file))

abbrev its_header : RemoteHeader
its_header = record {
  lead = record { detached = false; checksum_type = 3; header_size = 42; header_checksum = shown };
  preface = record {
    data_checksum = replicate 16 1;
    flags = 0;
    compression_type = 2;
    optional_elements = [];
  };
  index = an_index;
  signatures = record { count = 0 };
  header_bytes = a_file;
  body_offset = 65;
}

its_header_read : read_remote_header toy_hashes a_remote ≡ ok its_header
unfolding read_remote_header parse_header verify_header lead_length sum new_hash
    append_compressed_int append_loop lt_wf read_lead detached_of equal read_preface
    read_elements_if has_flag unknown_bits valid uncompressed_source read_index parse_index
    parse_buffer read_all_entries read_entries read_entry read_uncompressed_digest read_signatures
    read_compressed_int read_loop read_full size
its_header_read = refl

Returned-IsHeader_example : IsHeader toy_hashes its_header
Returned-IsHeader_example =
    Returned-IsHeader toy_hashes its_header (from_remote a_remote its_header_read)
