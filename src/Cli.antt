-- ===== src/Cli.antt =====
-- cmd/zchunk/main.go: what the commands do with the bytes of their files. Flags, paths and printing
-- are left out.
pub mod Sections
pub mod Chunking
pub mod RoundTrip
pub mod Detached
pub mod Remote
pub mod Names
pub mod WithHeader
pub mod Tally
pub mod Transfer
pub mod Files
pub mod Samples
pub mod Report
use zchunk.Prelude.{
  ℕ, zero, suc, ◌+◌, ◌-◌, ◌%◌, Bool, true, false, Option, none, some, List, [], ◌∷◌, ◌++◌, ◌==◌,
  leb, if◌then◌else◌, length, take, drop,
}
use zchunk.Go.Error.{Error, Context, eof, io_fault, wrap}
use zchunk.Go.Result
use zchunk.Go.Result.{Result, ok, err, panic, stuck, guard, make, in_context, u64_mod}
use zchunk.Go.Reader.{
  Bytes, Ending, at_end, broken, ending_error, Reading, pure, lift, reading, ◌>>=◌, ◌>>◌, read_full,
}
use zchunk.Go.Writer.{Writer, Written}
use zchunk.Checksum.{Hashes, sha256}
use zchunk.Lead.{Lead, detached_magic, read_lead}
use zchunk.Preface.{CompressionType, Preface, uncompressed_source, read_preface}
use zchunk.Index.{IndexEntry, Index, read_index}
use zchunk.Signatures.{Signatures, read_signatures}
use zchunk.Codec.{Zstd, decompress_chunk}
use zchunk.File.Detached.{with_magic}
use zchunk.Builder.{Builder, new_builder, add_chunk, write_file}
use zchunk.Extract
use zchunk.Extract.{or_return}
use zchunk.Assemble.{ReaderAt}

-- The four calls with which `extract`, `openLocal` and `collectChunkSamples` begin.
pub record Headers : Type 0 where
  pub lead : Lead
  pub preface : Preface
  pub index : Index
  pub signatures : Signatures

unfoldable pub read_headers : Reading Headers
read_headers = do
  lead ← read_lead
  pre ← read_preface lead.checksum_type
  idx ← read_index (uncompressed_source pre)
  sigs ← read_signatures
  pure (record { lead = lead; preface = pre; index = idx; signatures = sigs })

-- `extract`, which drops the count.
unfoldable pub extract : Hashes → Zstd → Writer → Ending → Bytes → Bytes → Written
unfolding read_headers
extract h z w end s out =
    or_return out 0 (read_headers end s)
      λ p. Extract.extract h z p.0.index p.0.preface.compression_type w end p.1 out

-- `AddChunk` in the loop of `create`: not for the empty slice.
unfoldable pub add_some : Hashes → Builder → Bytes → Result Builder
add_some h b [] = ok b
add_some h b (x ∷ xs) = add_chunk h b (x ∷ xs)

-- Behind a short read: the input has ended, or it has failed.
abbrev pub ended : Ending → Builder → Result Builder
ended at_end b = ok b
ended broken b = err (wrap Context.read_input io_fault)

-- The loop of `create`; `io.ReadFull` into a buffer of `n` bytes takes what there is.
unfoldable pub add_file : ℕ → Hashes → ℕ → Ending → Builder → Bytes → Result Builder
unfolding add_some
add_file zero h n end b s = stuck
add_file (suc fuel) h n end b s = Result.◌>>=◌ (add_some h b (take n s)) λ b'.
    elim (leb n (length s)) [ true ↦ add_file fuel h n end b' (drop n s) | false ↦ ended end b' ]

-- `&zchunk.Preface{CompressionType: ct}`
abbrev pub plain_preface : CompressionType → Preface
plain_preface ct = record {
  data_checksum = [];
  flags = 0;
  compression_type = ct;
  optional_elements = [];
}

-- `make([]byte, chunkSize)` is left out: the chunk size is an int, and the command refuses one that is
-- not positive. Every round but the last takes `n` bytes, so that one round for each byte and one more
-- are enough where `n` is positive.
unfoldable pub create :
    Hashes → Zstd → ℕ → CompressionType → Bytes → Writer → Bytes → Ending → Bytes → Written
unfolding add_file
create h z n ct dict w out end s = or_return out 0 (new_builder h z ct sha256 dict) λ b.
    or_return out 0 (add_file (suc (length s)) h n end b s)
      λ b'. write_file h w out b' sha256 (plain_preface ct) none

-- `f.ReadAt(header, 0)`
unfoldable pub read_front : ℕ → Ending → Bytes → Result Bytes
read_front n end s = if leb n (length s) then ok (take n s) else err (ending_error end eof)

-- `copy(header[:len(zchunk.DetachedMagic)], zchunk.DetachedMagic)`: a header whose length has wrapped
-- around may be too short for it.
abbrev pub swap_magic : Bytes → Result Bytes
swap_magic header =
    if leb (length detached_magic) (length header)
    then ok (with_magic detached_magic header)
    else panic

-- What `writeDetachedHeader` writes to its output.
unfoldable pub detached_header : Ending → Bytes → Result Bytes
unfolding read_front
detached_header end s = Result.◌>>=◌ (read_lead end s) λ p.
    let n = (length s - length p.1 + p.0.header_size) % u64_mod in
    Result.◌>>◌ (make n) (
      Result.◌>>=◌ (in_context Context.read_header (read_front n end s))
        λ header. swap_magic header)

-- `io.NewSectionReader` over the rest of a file, and its `ReadAt`.
unfoldable pub section : Bytes → ReaderAt
section body offset n =
    if leb (length body) offset
    then ([], some eof)
    else (take n (drop offset body), if leb n (length (drop offset body)) then none else some eof)

-- The index and the body that `openLocal` returns.
unfoldable pub open_local : Ending → Bytes → Result (Index × ReaderAt)
unfolding read_headers section
open_local end s = Result.◌>>=◌ (read_headers end s) λ p. ok (p.0.index, section p.1)

-- The dictionary that `collectChunkSamples` reads and decompresses, when the index has an entry.
unfoldable pub sample_of : Zstd → CompressionType → Bytes → Context → IndexEntry → Reading Bytes
sample_of z ct dict c e = do
  lift (make e.comp_length)
  raw ← reading c (read_full e.comp_length)
  lift (decompress_chunk z ct dict raw e.full_length)

unfoldable pub samples_from :
    Zstd → CompressionType → Bytes → ℕ → List IndexEntry → Reading (List Bytes)
unfolding sample_of
samples_from z ct dict i [] = pure []
samples_from z ct dict i (e ∷ es) = do
  content ← sample_of z ct dict (Context.read_sample i) e
  rest ← samples_from z ct dict (i + 1) es
  pure (content ∷ rest)

unfoldable pub body_samples : Zstd → CompressionType → List IndexEntry → Reading (List Bytes)
unfolding samples_from
body_samples z ct [] = pure []
body_samples z ct (d ∷ es) = do
  dict ← sample_of z ct [] Context.read_dictionary d
  samples_from z ct dict 1 es

unfoldable pub collect_chunk_samples : Zstd → Reading (List Bytes)
unfolding body_samples read_headers
collect_chunk_samples z = do
  hs ← read_headers
  body_samples z hs.preface.compression_type hs.index.chunks
