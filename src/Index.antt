-- ===== src/Index.antt =====
-- internal/zchunk/index.go: `IndexEntry`, `Index`, `ReadIndex`, `parseIndex` and `WriteTo`.
pub mod Entries
pub mod RoundTrip
pub mod Total
pub mod WellFormed
pub mod Rewrite
use zchunk.Prelude.{
  ℕ, zero, suc, ◌+◌, Bool, true, false, List, [], ◌∷◌, ◌++◌, Option, none, some, ◌==◌,
  if◌then◌else◌, length,
}
use zchunk.Go.Error.{
  Error, Context, chunk_count_mismatch, digest_length, uncompressed_digest_length,
}
use zchunk.Go.Result
use zchunk.Go.Result.{Result, ok, err, stuck, guard, make}
use zchunk.Go.Reader.{Bytes, Ending, at_end, Reading, pure, lift, reading, ◌>>=◌, ◌>>◌, read_full}
use zchunk.Go.Writer.{Writer, Written, write_built}
use zchunk.CompressedInt.{append_compressed_int, read_compressed_int}
use zchunk.Checksum.{ChecksumType, size}

-- A nil `UncompressedDigest` is `none`.
pub record IndexEntry : Type 0 where
  pub digest : Bytes
  pub uncompressed_digest : Option Bytes
  pub comp_length : ℕ
  pub full_length : ℕ

pub record Index : Type 0 where
  pub chunk_checksum_type : ChecksumType
  pub chunks : List IndexEntry

-- `Dict`: chunk 0.
unfoldable pub dict : List IndexEntry → Option IndexEntry
dict [] = none
dict (e ∷ es) = some e

unfoldable pub read_uncompressed_digest : Bool → ℕ → ℕ → Reading (Option Bytes)
read_uncompressed_digest false n i = pure none
read_uncompressed_digest true n i = do
  digest ← reading (Context.chunk_uncompressed_digest i) (read_full n)
  pure (some digest)

-- One round of the loop of `parseIndex`, for chunk `i` and digests of `n` bytes.
unfoldable pub read_entry : Bool → ℕ → ℕ → Reading IndexEntry
read_entry u n i = do
  digest ← reading (Context.chunk_digest i) (read_full n)
  uncompressed ← read_uncompressed_digest u n i
  comp_length ← reading (Context.chunk_length i) read_compressed_int
  full_length ← reading (Context.chunk_uncompressed_length i) read_compressed_int
  pure (record {
    digest = digest;
    uncompressed_digest = uncompressed;
    comp_length = comp_length;
    full_length = full_length;
  })

-- `for rd.Len() > 0`, with fuel; a round takes a byte at least.
unfoldable pub read_entries : ℕ → Bool → ℕ → List IndexEntry → Reading (List IndexEntry)
read_entries fuel u n acc end [] = ok (acc, [])
read_entries zero u n acc end (b ∷ s) = stuck
read_entries (suc fuel) u n acc end (b ∷ s) =
    Result.◌>>=◌ (read_entry u n (length acc) end (b ∷ s))
      λ p. read_entries fuel u n (acc ++ p.0 ∷ []) end p.1

-- The loop on all that is left of the buffer.
unfoldable pub read_all_entries : Bool → ℕ → Reading (List IndexEntry)
read_all_entries u n end s = read_entries (length s) u n [] end s

unfoldable pub parse_buffer : Bool → Reading Index
parse_buffer u = do
  ck_type ← reading Context.chunk_checksum_type read_compressed_int
  n ← lift (size ck_type)
  declared ← reading Context.chunk_count read_compressed_int
  chunks ← read_all_entries u n
  lift (guard (length chunks == declared) (chunk_count_mismatch declared (length chunks)))
  pure (record { chunk_checksum_type = ck_type; chunks = chunks })

unfoldable pub parse_index : Bytes → Bool → Result Index
parse_index buf u = Result.◌>>=◌ (parse_buffer u at_end buf) λ p. ok p.0

unfoldable pub read_index : Bool → Reading Index
read_index u = do
  index_size ← reading Context.index_size read_compressed_int
  lift (make index_size)
  buf ← reading Context.index_body (read_full index_size)
  idx ← lift (parse_index buf u)
  pure idx

-- A nil slice has no bytes.
abbrev pub slice : Option Bytes → Bytes
slice none = []
slice (some d) = d

-- What the loop of `WriteTo` appends for chunk `i`.
unfoldable pub append_entry : Bool → ℕ → ℕ → Bytes → IndexEntry → Result Bytes
append_entry u n i body e =
    let lengths =
      λ (b : Bytes). append_compressed_int (append_compressed_int b e.comp_length) e.full_length in
    Result.◌>>◌ (guard (length e.digest == n) (digest_length i (length e.digest) n)) (
      if u
      then Result.◌>>◌
          (guard (length (slice e.uncompressed_digest) == n)
            (uncompressed_digest_length i (length (slice e.uncompressed_digest)) n))
          (ok (lengths ((body ++ e.digest) ++ slice e.uncompressed_digest)))
      else ok (lengths (body ++ e.digest)))

unfoldable pub append_entries : Bool → ℕ → ℕ → Bytes → List IndexEntry → Result Bytes
append_entries u n i body [] = ok body
append_entries u n i body (e ∷ es) =
    Result.◌>>=◌ (append_entry u n i body e) λ b. append_entries u n (i + 1) b es

-- The bytes that `Index.WriteTo` hands to the writer.
unfoldable pub index_bytes : Index → Bool → Result Bytes
index_bytes idx u = Result.◌>>=◌ (size idx.chunk_checksum_type) λ n.
    Result.◌>>=◌
      (append_entries u n 0
        (append_compressed_int (append_compressed_int [] idx.chunk_checksum_type)
          (length idx.chunks))
        idx.chunks)
      λ body. ok (append_compressed_int [] (length body) ++ body)

unfoldable pub write_index : Writer → Bytes → Index → Bool → Written
unfolding index_bytes write_built
write_index w out idx u = write_built w out (index_bytes idx u)
