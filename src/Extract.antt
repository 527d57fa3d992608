-- ===== src/Extract.antt =====
-- internal/zchunk/extract.go: `Extract` and `readChunk`.
pub mod RoundTrip
pub mod Account
pub mod Verified
pub mod Checked
use zchunk.Prelude.{
  ℕ, zero, ◌+◌, ◌%◌, Bool, true, false, Option, none, some, List, [], ◌∷◌, ◌++◌, ◌==◌,
  if◌then◌else◌, length,
}
use zchunk.Go.Error.{
  Error, Context, unsupported_compression_type, digest_mismatch, uncompressed_digest_mismatch,
}
use zchunk.Go.Result
use zchunk.Go.Result.{Result, ok, err, panic, stuck, guard, make, in_context, u64_mod}
use zchunk.Go.Reader.{Bytes, Ending, Reading, pure, lift, reading, ◌>>=◌, ◌>>◌, read_full}
use zchunk.Go.Writer.{Writer, Written, write}
use zchunk.Checksum.{ChecksumType, Hashes, size, sum}
use zchunk.Lead.{equal}
use zchunk.Preface.{CompressionType, valid}
use zchunk.Index.{IndexEntry, Index}
use zchunk.Codec.{Zstd, ChunkDecoder, new_chunk_decoder, decompress}
use zchunk.File.{or_nil}

-- `if e.UncompressedDigest != nil`
unfoldable pub check_uncompressed :
    Hashes → ChecksumType → ℕ → Option Bytes → Bytes → Result (Unit {0})
check_uncompressed h t n none content = ok tt
check_uncompressed h t n (some d) content =
    guard (equal (or_nil (sum h t content)) d) (uncompressed_digest_mismatch n)

-- The part of `readChunk` behind the test for an empty chunk.
unfoldable pub open_chunk :
    Hashes → ChecksumType → ChunkDecoder → IndexEntry → ℕ → Bytes → Result Bytes
unfolding check_uncompressed
open_chunk h t dec e n comp =
    Result.◌>>◌ (guard (equal (or_nil (sum h t comp)) e.digest) (digest_mismatch n)) (
      Result.◌>>=◌ (in_context (Context.chunk n) (decompress dec comp e.full_length)) λ content.
        Result.◌>>◌ (check_uncompressed h t n e.uncompressed_digest content) (ok content))

-- The scratch buffer is as good as a fresh slice: it is filled before it is read.
unfoldable pub read_chunk : Hashes → ChecksumType → ChunkDecoder → IndexEntry → ℕ → Reading Bytes
read_chunk h t dec e n = do
  lift (make e.comp_length)
  comp ← reading (Context.chunk_body n) (read_full e.comp_length)
  content ← lift (if e.comp_length == 0 then ok [] else open_chunk h t dec e n comp)
  pure content

-- `if err != nil { return written, err }`
abbrev pub or_return {ℓ} : {A : Type ℓ} → Bytes → ℕ → Result A → (A → Written) → Written
or_return out count (ok a) k = k a
or_return out count (err e) k = record { out = out; count = count; result = err e }
or_return out count panic k = record { out = out; count = count; result = panic }
or_return out count stuck k = record { out = out; count = count; result = stuck }

module _ (h : Hashes) (t : ChecksumType) (w : Writer) (dec : ChunkDecoder) (end : Ending) where
  -- The loop over the data chunks, from chunk `i` on.
  unfoldable pub extract_chunks : List IndexEntry → ℕ → Bytes → Bytes → ℕ → Written
  extract_chunks [] i s out count = record { out = out; count = count; result = ok tt }
  extract_chunks (e ∷ es) i s out count = or_return out count (read_chunk h t dec e i end s) λ p.
      let done = write w out p.0 in
      let count' = (count + done.count) % u64_mod in
      or_return done.out count' (in_context (Context.write_chunk i) done.result)
        λ _. extract_chunks es (i + 1) p.1 done.out count'

-- `dictDec, _ :=`: a nil decoder would be a nil dereference.
abbrev pub or_panic {ℓ} : {A : Type ℓ} → Result A → Result A
or_panic (ok a) = ok a
or_panic _ = panic

unfoldable pub extract_all :
    Hashes
    → Zstd
    → ChecksumType
    → CompressionType
    → Writer
    → Ending
    → List IndexEntry
    → Bytes
    → Bytes
    → Written
extract_all h z t ct w end [] s out = record { out = out; count = 0; result = ok tt }
extract_all h z t ct w end (d ∷ es) s out =
    or_return out 0 (or_panic (new_chunk_decoder z ct [])) λ dict_dec.
      or_return out 0 (read_chunk h t dict_dec d 0 end s) λ p.
        or_return out 0 (new_chunk_decoder z ct p.0)
          λ dec. extract_chunks h t w dec end es 1 p.1 out 0

unfoldable pub extract :
    Hashes → Zstd → Index → CompressionType → Writer → Ending → Bytes → Bytes → Written
extract h z idx ct w end s out = or_return out 0 (size idx.chunk_checksum_type) λ _.
    or_return out 0 (guard (valid ct) (unsupported_compression_type ct))
      λ _. extract_all h z idx.chunk_checksum_type ct w end idx.chunks s out
