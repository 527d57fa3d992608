-- ===== src/File.antt =====
-- internal/zchunk/file.go: `buildHeader`, `WriteFile` and `WriteDetachedHeader`.
pub mod Layout
pub mod Detached
use zchunk.Prelude.{
  ℕ, Bool, true, false, Option, none, some, List, [], ◌∷◌, ◌++◌, if◌then◌else◌, length, replicate,
}
use zchunk.Go.Result.{Result, ok, err, panic, stuck, ◌>>=◌}
use zchunk.Go.Reader.{Bytes}
use zchunk.Go.Writer.{Writer, Written, write_built}
use zchunk.CompressedInt.{append_compressed_int}
use zchunk.Checksum.{ChecksumType, Hashes, size, sum}
use zchunk.Lead.{magic, detached_magic, lead_no_digest}
use zchunk.Preface.{Preface, uncompressed_source, preface_bytes}
use zchunk.Index.{Index, index_bytes}
use zchunk.Signatures.{Signatures, signatures_bytes}

-- `d, _ := t.Sum(…)`: nil on an error.
abbrev pub or_nil : Result Bytes → Bytes
or_nil (ok d) = d
or_nil _ = []

-- `if sigs == nil`
unfoldable pub or_no_signatures : Option Signatures → Signatures
or_no_signatures none = record { count = 0 }
or_no_signatures (some s) = s

-- The copy of the caller's preface with its data checksum.
unfoldable pub with_data_checksum : Hashes → ChecksumType → ℕ → Preface → Bytes → Preface
with_data_checksum h t n pre body = record pre {
  data_checksum = if uncompressed_source pre then replicate n 0 else or_nil (sum h t body);
}

-- Preface, index and signatures, as they are written to the buffer `hdr` one after the other.
unfoldable pub header_body : Preface → Index → Signatures → Result Bytes
header_body p idx sigs = do
  pre ← preface_bytes p
  index ← index_bytes idx (uncompressed_source p)
  signatures ← signatures_bytes sigs
  ok ((pre ++ index) ++ signatures)

-- The lead in front of `hdr`, with the requested magic; its digest is taken with the embedded one.
unfoldable pub assemble : Hashes → Bytes → ChecksumType → Bytes → Bytes
assemble h id t hdr =
    let digest = or_nil (sum h t (lead_no_digest t (length hdr) ++ hdr)) in
    (append_compressed_int (append_compressed_int id t) (length hdr) ++ digest) ++ hdr

unfoldable pub build_header :
    Hashes → Bytes → ChecksumType → Preface → Index → Option Signatures → Bytes → Result Bytes
build_header h id t pre idx sigs body = do
  n ← size t
  hdr ← header_body (with_data_checksum h t n pre body) idx (or_no_signatures sigs)
  ok (assemble h id t hdr)

-- The bytes of a complete file.
unfoldable pub file_bytes :
    Hashes → ChecksumType → Preface → Index → Option Signatures → Bytes → Result Bytes
file_bytes h t pre idx sigs body = do
  header ← build_header h magic t pre idx sigs body
  ok (header ++ body)

unfoldable pub write_file :
    Hashes → Writer → Bytes → ChecksumType → Preface → Index → Option Signatures → Bytes → Written
unfolding file_bytes write_built
write_file h w out t pre idx sigs body = write_built w out (file_bytes h t pre idx sigs body)

unfoldable pub write_detached_header :
    Hashes → Writer → Bytes → ChecksumType → Preface → Index → Option Signatures → Bytes → Written
unfolding build_header write_built
write_detached_header h w out t pre idx sigs body =
    write_built w out (build_header h detached_magic t pre idx sigs body)
