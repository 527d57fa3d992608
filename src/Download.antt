-- ===== src/Download.antt =====
-- internal/zchunk/remote.go: `offsetRange`, `DownloadDelta` and `DownloadDeltaWithHeader`.
pub mod Range
pub mod Complete
pub mod Checked
pub mod Built
use zchunk.Prelude.{
  ℕ, ◌+◌, ◌%◌, Bool, true, false, Option, List, [], ◌∷◌, ◌++◌, leb, if◌then◌else◌, length, drop,
}
use zchunk.Go.Error.{Context, data_checksum_mismatch}
use zchunk.Go.Result.{Result, ok, err, panic, stuck, guard, in_context, u64_mod}
use zchunk.Go.Reader.{Bytes}
use zchunk.Go.Writer.{Writer, Written, write}
use zchunk.Checksum.{Hashes, sum}
use zchunk.Lead.{equal, magic, detached_magic}
use zchunk.Preface.{uncompressed_source}
use zchunk.Index.{Index}
use zchunk.Header.{RemoteHeader, RangeReader, read_remote_header}
use zchunk.Delta.{DeltaPlan, plan_delta}
use zchunk.Extract.{or_return}
use zchunk.Assemble.{ReaderAt, assemble_body}

unfoldable pub offset_range : RangeReader → ℕ → RangeReader
offset_range remote base offset n = remote ((base + offset) % u64_mod) n

-- The header of a full file: `rh.HeaderBytes[len(DetachedMagic):]` panics when it is too short.
unfoldable pub embedded_header : RemoteHeader → Result Bytes
embedded_header rh =
    if rh.lead.detached
    then (if leb (length detached_magic) (length rh.header_bytes)
        then ok (magic ++ drop (length detached_magic) rh.header_bytes)
        else panic)
    else ok rh.header_bytes

-- What an unknown checksum type comes to: `h` is nil, and the first write to it panics.
abbrev pub nil_hasher : Bytes → Result (Unit {0})
nil_hasher [] = ok tt
nil_hasher (b ∷ bs) = panic

abbrev pub matches : Result Bytes → Bytes → Bytes → Result (Unit {0})
matches (ok made) digest body = guard (equal made digest) data_checksum_mismatch
matches _ digest body = nil_hasher body

-- The check of the data checksum, where `body` is what the hasher has got. No reader of the package
-- returns a header with an unknown type.
unfoldable pub check_data : Hashes → RemoteHeader → Bytes → Result (Unit {0})
check_data h rh body =
    if uncompressed_source rh.preface
    then ok tt
    else matches (sum h rh.lead.checksum_type body) rh.preface.data_checksum body

-- What follows the header, which the writer holds in `out` and which counts `n`. `io.MultiWriter`
-- passes a slice on to the hasher when `out` has taken the whole of it, so that a body that is
-- assembled without an error has been hashed as it was written.
unfoldable pub write_body :
    Hashes → RemoteHeader → DeltaPlan → RangeReader → ReaderAt → Writer → Bytes → ℕ → Written
unfolding offset_range check_data
write_body h rh plan remote local w out n =
    let body = assemble_body h plan rh.index local (offset_range remote rh.body_offset) w out in
    let n' = (n + body.count) % u64_mod in
    or_return body.out n' body.result λ _. record {
      out = body.out;
      count = n';
      result = check_data h rh (drop (length out) body.out);
    }

-- What follows the plan and the header's bytes.
unfoldable pub write_parts :
    Hashes → RemoteHeader → DeltaPlan → RangeReader → ReaderAt → Writer → Bytes → Bytes → Written
unfolding write_body
write_parts h rh plan remote local w out header =
    let head = write w out header in
    or_return head.out head.count (in_context Context.write_header head.result)
      λ _. write_body h rh plan remote local w head.out head.count

unfoldable pub download_delta_with_header :
    Hashes → RemoteHeader → RangeReader → Option Index → ReaderAt → Writer → Bytes → Written
unfolding write_parts embedded_header
download_delta_with_header h rh remote local_index local w out =
    or_return out 0 (plan_delta local_index rh.index) λ plan.
      or_return out 0 (embedded_header rh) λ header. write_parts h rh plan remote local w out header

unfoldable pub download_delta :
    Hashes → RangeReader → Option Index → ReaderAt → Writer → Bytes → Written
unfolding download_delta_with_header
download_delta h remote local_index local w out =
    or_return out 0 (read_remote_header h remote)
      λ rh. download_delta_with_header h rh remote local_index local w out
