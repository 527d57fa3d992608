-- ===== src/Lib.antt =====
-- A model of go-deltasync/zchunk, the Go implementation of the zchunk file format: a file that
-- carries its content in chunks, compressed one by one, behind a header with the digest of each, so
-- that a client that has an older file fetches only the chunks that it lacks.
--
-- A file is a lead, a preface, an index, a signature section and a body. The parts, and the code
-- (under internal/zchunk) that each file models:
--   CompressedInt   zchunk.go: AppendCompressedInt, ReadCompressedInt
--   Checksum        zchunk.go and checksum.go: ChecksumType, Size, newHash, Sum
--   Lead            lead.go: ReadLead, VerifyHeader, WriteTo
--   Preface         preface.go: the flags, ReadPreface, WriteTo
--   Index           index.go: ReadIndex, parseIndex, WriteTo
--   Signatures      signatures.go: ReadSignatures, WriteTo
--   File            file.go: buildHeader, WriteFile, WriteDetachedHeader
--   Header          remote.go: ReadDetachedHeader, ReadRemoteHeader, parseHeader
--   Codec           compress.go: the chunk encoder and decoder, CompressChunk, DecompressChunk
--   Builder         builder.go: NewBuilder, AddChunk, WriteFile
--   Extract         extract.go: Extract, readChunk
--   Delta           delta.go: PlanDelta, FetchBytes, ReuseBytes
--   Assemble        download.go: AssembleBody, remoteRuns, verifyWriteChunk; Assemble.Pool has the
--                   goroutines that fetch, as steps that may come in any order
--   Download        remote.go: DownloadDelta, DownloadDeltaWithHeader, offsetRange
--   Http            httprange.go: HTTPRangeReader
--   Dict            zdict.go: GenerateDict, selectDictContent, bestSegment
--   Cli             cmd/zchunk/main.go: what the commands do with the bytes of their files, and in
--                   Cli.Files with the files of a disk: create, extract, header, info, gen-zdict;
--                   download and delta-size in Cli.Remote; `with_magic` of File.Detached is the swap
--                   of the magic
--   Go              the Go run time and the packages io and fmt, as far as the code relies on them:
--                   text is its bytes, with the verbs of fmt that the code uses
--   Prelude         shared names, lists, Boolean tests and bits
--   Tests           the theorems at concrete inputs
--
-- How the code corresponds to the model:
--   - A []byte is a list of numbers. The code builds each section in memory, which the functions
--     that end in _bytes do, and hands it to a writer in one call, which those that begin with write_
--     do. A writer may fail behind any number of the bytes of a slice.
--   - An io.Reader is the list of the bytes left, and whether it answers io.EOF or fails behind them
--     (Go.Reader). A parser returns the rest. `Reads m bs a` says that the parser m takes exactly the
--     bytes bs and returns a, whatever follows.
--   - An error is a value with the numbers that its message prints, and `wrap` with the place that it
--     names (Go.Error). A run-time panic is an outcome of its own (Go.Result): `make` panics on a
--     length above the largest int, of 64 bits, whatever the size of an element. Running out of memory
--     or of address space is not modelled.
--   - A uint64, and an int64 as a bit pattern, is a natural number with its wrap-around written out.
--     What parsing returns is below 2^64; what writing is given has that as a hypothesis.
--   - A nil and an empty slice are one value, except an entry's uncompressed digest, where the code
--     tells them apart.
--   - A RangeReader is a function of an offset and a length, so that a range has one answer however
--     often and in whatever order it is asked for; Serves says that it gives the bytes of a file.
--     AssembleBody is first modelled with the results that its workers leave as a parameter
--     (assemble_with), then with the results of fetching one run after the other (assemble_body).
--   - A map is the list of its assignments. The sources of a plan and the runs are lists, and an index
--     into them that is out of range panics.
--   - The hash functions (Hashes) and the zstd library (Zstd) are parameters, with their documented
--     behaviour: a digest's length, and a decoder that reads back what the encoder of the same
--     dictionary wrote.
--   - A disk is a function from paths to contents; what the file system refuses, how reading a file
--     ends and what writing to it takes is a parameter (Os). A command whose output is its input is
--     modelled: an output is made empty when it is created, and read as it then is. Links, and two
--     spellings of one path, are not.
--   - net/http (Network, Client), the dictionary builder of the zstd library and FNV-1a (Trainer) are
--     parameters too.
--
-- Loops are structural recursion, with five exceptions: the encoder, and the printing of a number,
-- recurse on a proof that a shifted or divided number is smaller; the loop over index entries has as
-- fuel the number of bytes left; the loop of create has one round for each byte of the input and one
-- more, since a round takes a byte at least where the chunk size is positive; and the loop of
-- selectDictContent has one round for each byte asked for and one more, since a round adds a byte at
-- least. `stuck` stands for a loop that is out of fuel or never ends, as that of create does on a
-- chunk size of zero, which the command refuses, and for a wait that never ends.
--
-- Not modelled: the registration of the commands and their flags with cobra, and the text that
-- delta-size prints, which has a percentage in floating point (cmd/zchunk/main.go); download with an
-- output that is its local file, which is read while it is written; and the aliases of the public
-- package (zchunk.go), which only pass names on. `Close` of a builder and of the coders releases
-- resources and has no model.
pub mod Prelude
pub mod Go
pub mod CompressedInt
pub mod Checksum
pub mod Lead
pub mod Signatures
pub mod Preface
pub mod Index
pub mod File
pub mod Header
pub mod Codec
pub mod Builder
pub mod Extract
pub mod Delta
pub mod Assemble
pub mod Download
pub mod Http
pub mod Cli
pub mod Dict
pub mod Tests
