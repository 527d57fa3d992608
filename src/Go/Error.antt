-- ===== src/Go/Error.antt =====
-- The errors of the package as data: one constructor for each message, with the numbers that it
-- prints, and `wrap` for `fmt.Errorf("…: %w", err)` with the place that the message names.
use zchunk.Prelude.{ℕ, List}
use zchunk.Go.Int.{ℤ}

pub data Context : Type 0 where
  lead_id checksum_type header_size header_checksum : Context
  data_checksum flags compression_type element_count : Context
  element_id element_size element_data : ℕ → Context
  index_size index_body chunk_checksum_type chunk_count : Context
  chunk_digest chunk_uncompressed_digest chunk_length chunk_uncompressed_length : ℕ → Context
  signature_count detached_header fetch_lead fetch_header write_header : Context
  chunk_body chunk write_chunk fetch_chunk local_chunk : ℕ → Context
  load_dictionary zstd_decode read_input : Context
  build_request http_request range_body : Context
  read_header read_dictionary : Context
  read_sample : ℕ → Context
  -- the messages that name a path
  open_file create_file read_dictionary_file write_to : List ℕ → Context

pub data Error : Type 0 where
  -- io.EOF, io.ErrUnexpectedEOF, and any other failure of a reader or a writer
  eof unexpected_eof io_fault : Error
  -- ErrTruncated and ErrOverflow
  truncated overflow : Error
  unknown_checksum_type : ℕ → Error
  bad_lead_magic : List ℕ → Error
  header_checksum_length : ℕ → ℕ → ℕ → Error
  header_checksum_mismatch data_checksum_mismatch : Error
  unknown_flags unknown_compression_type unsupported_compression_type : ℕ → Error
  flag_disagrees_with_elements : ℕ → Error
  chunk_count_mismatch : ℕ → ℕ → Error
  digest_length uncompressed_digest_length : ℕ → ℕ → ℕ → Error
  signatures_not_supported : ℕ → Error
  stored_length_mismatch decompressed_length_mismatch : ℕ → ℕ → Error
  digest_mismatch uncompressed_digest_mismatch : ℕ → Error
  checksum_types_differ : ℕ → ℕ → Error
  got_bytes : ℕ → ℕ → Error
  unexpected_status : ℕ → Error
  unknown_compression_name : List ℕ → Error
  -- the refusals of the flags --chunk-size and --max-size
  chunk_size_not_positive max_size_not_positive : ℤ → Error
  -- a file that cannot be opened, created, written or closed
  file_error : Error
  -- the zstd library's own errors
  zstd_error : Error
  wrap : Context → Error → Error
