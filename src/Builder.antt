-- ===== src/Builder.antt =====
-- internal/zchunk/builder.go: `NewBuilder`, `AddChunk` and `WriteFile`. `Index`, `Body` and `Close`
-- only read or release the fields.
pub mod RoundTrip
pub mod Entries
pub mod Chunks
use zchunk.Prelude.{ℕ, List, [], ◌∷◌, ◌++◌, none, replicate, length, Option}
use zchunk.Go.Error.{unsupported_compression_type}
use zchunk.Go.Result.{Result, ok, guard, ◌>>=◌, ◌>>◌}
use zchunk.Go.Reader.{Bytes}
use zchunk.Go.Writer.{Writer, Written}
use zchunk.Signatures.{Signatures}
use zchunk.Checksum.{ChecksumType, Hashes, size, sum}
use zchunk.Preface.{CompressionType, Preface, valid}
use zchunk.Index.{IndexEntry, Index}
use zchunk.Codec.{Zstd, ChunkEncoder, new_chunk_encoder, compress, compress_chunk}
use zchunk.File
use zchunk.File.{or_nil}

pub record Builder : Type 0 where
  pub enc : ChunkEncoder
  pub idx : Index
  pub body : Bytes

-- The entry of a chunk of `n` bytes that was coded as `comp`.
abbrev pub entry_of : Hashes → ChecksumType → Bytes → ℕ → IndexEntry
entry_of h t comp n = record {
  digest = or_nil (sum h t comp);
  uncompressed_digest = none;
  comp_length = length comp;
  full_length = n;
}

-- `append(b.idx.Chunks, …)` and `append(b.body, comp...)`
abbrev pub append_chunk : Builder → IndexEntry → Bytes → Builder
append_chunk b e comp = record b {
  idx = record { chunk_checksum_type = b.idx.chunk_checksum_type; chunks = b.idx.chunks ++ e ∷ [] };
  body = b.body ++ comp;
}

-- The dictionary as chunk 0: all zero if there is none.
unfoldable pub add_dict : Hashes → Zstd → CompressionType → ℕ → Builder → Bytes → Builder
add_dict h z ct n b [] =
    append_chunk b
      (record {
        digest = replicate n 0;
        uncompressed_digest = none;
        comp_length = 0;
        full_length = 0;
      })
      []
add_dict h z ct n b (d ∷ ds) =
    let comp = or_nil (compress_chunk z ct [] (d ∷ ds)) in
    append_chunk b (entry_of h b.idx.chunk_checksum_type comp (length (d ∷ ds))) comp

unfoldable pub new_builder : Hashes → Zstd → CompressionType → ChecksumType → Bytes → Result Builder
new_builder h z ct t dict = do
  guard (valid ct) (unsupported_compression_type ct)
  n ← size t
  enc ← new_chunk_encoder z ct dict
  ok (
      add_dict h z ct n
        (record { enc = enc; idx = record { chunk_checksum_type = t; chunks = [] }; body = [] })
        dict)

unfoldable pub add_chunk : Hashes → Builder → Bytes → Result Builder
add_chunk h b plain = do
  comp ← compress b.enc plain
  ok (append_chunk b (entry_of h b.idx.chunk_checksum_type comp (length plain)) comp)

-- `AddChunk` for each chunk of a list, in order.
unfoldable pub add_chunks : Hashes → Builder → List Bytes → Result Builder
add_chunks h b [] = ok b
add_chunks h b (plain ∷ plains) = do b' ← add_chunk h b plain; add_chunks h b' plains

unfoldable pub write_file :
    Hashes → Writer → Bytes → Builder → ChecksumType → Preface → Option Signatures → Written
unfolding File.write_file
write_file h w out b t pre sigs = File.write_file h w out t pre b.idx sigs b.body
