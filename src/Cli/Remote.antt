-- ===== src/Cli/Remote.antt =====
-- cmd/zchunk/main.go: the commands `download` and `delta-size`.
use zchunk.Prelude.{
  ℕ, ◌+◌, ◌%◌, ◌≤◌, ◌≡◌, Option, none, some, List, [], ◌∷◌, ◌++◌, if◌then◌else◌, length, arith,
}
use zchunk.Go.Result
use zchunk.Go.Result.{Result, ok, max_int, u64_mod}
use zchunk.Go.Reader.{Bytes, Ending, at_end}
use zchunk.Go.Writer.{Writer, Written, buffer}
use zchunk.Checksum.{ChecksumType, Hashes}
use zchunk.Preface.{Preface, uncompressed_source}
use zchunk.Index.{Index}
use zchunk.Index.RoundTrip.{IsIndex}
use zchunk.Signatures.{Signatures}
use zchunk.File.{file_bytes}
use zchunk.Header.{RangeReader, max_lead_prefix, read_detached_header, read_remote_header}
use zchunk.Header.Detached.{IsCarrier}
use zchunk.Delta.{ChunkSource, DeltaPlan, plan_delta, fetch_bytes, reuse_bytes}
use zchunk.Extract.{or_return}
use zchunk.Assemble.{ReaderAt}
use zchunk.Download.{download_delta, download_delta_with_header}
use zchunk.Download.Complete.{Reusable, download_delta-file_bytes}
use zchunk.Http.{Network, new_http_range_reader, read_range}
use zchunk.Http.Range.{Answers, read_range-Serves}
use zchunk.Cli.{section, open_local}
use zchunk.Cli.Sections.{open_local-file_bytes}

-- A file as it is read.
abbrev pub Input : Type 0
Input = Ending × Bytes

-- `--local`: without it, no index and an empty body.
unfoldable pub local_of : Option Input → Result (Option Index × ReaderAt)
unfolding open_local section
local_of none = ok (none, section [])
local_of (some (end, s)) = Result.◌>>=◌ (open_local end s) λ p. ok (some p.0, p.1)

-- `zchunk.NewHTTPRangeReader(url, 0, nil)`
unfoldable pub remote_of : Network → Bytes → RangeReader
unfolding read_range new_http_range_reader
remote_of net url = read_range net (new_http_range_reader net url 0 none)

-- `download`, with the files of `--local` and `--header`.
unfoldable pub download :
    Hashes → Network → Bytes → Option Input → Option Input → Writer → Bytes → Written
unfolding local_of remote_of
download h net url local header w out = or_return out 0 (local_of local) λ p. elim header [
  | none ↦ download_delta h (remote_of net url) p.0 p.1 w out
  | some d ↦
      or_return out 0 (read_detached_header h d.0 d.1)
        λ q. download_delta_with_header h q.0 (remote_of net url) p.0 p.1 w out
]

-- What `reportDeltaSize` prints, but for the percentage.
pub record DeltaSize : Type 0 where
  pub chunks : ℕ
  pub reuse_chunks : ℕ
  pub fetch_chunks : ℕ
  pub reuse : ℕ
  pub fetch : ℕ
  pub total : ℕ

unfoldable pub count_chunks : List ChunkSource → ℕ × ℕ
count_chunks [] = (0, 0)
count_chunks (s ∷ ss) =
    let rest = count_chunks ss in if s.is_local then (rest.0 + 1, rest.1) else (rest.0, rest.1 + 1)

unfoldable pub report_delta_size : DeltaPlan → DeltaSize
unfolding count_chunks
report_delta_size p = record {
  chunks = length p.sources;
  reuse_chunks = (count_chunks p.sources).0;
  fetch_chunks = (count_chunks p.sources).1;
  reuse = reuse_bytes p;
  fetch = fetch_bytes p;
  total = (reuse_bytes p + fetch_bytes p) % u64_mod;
}

-- `localIndex := &zchunk.Index{}`
abbrev pub or_empty : Option Index → Index
or_empty none = record { chunk_checksum_type = 0; chunks = [] }
or_empty (some idx) = idx

-- `delta-size`, which has an empty index without `--local`.
unfoldable pub delta_size : Hashes → Network → Bytes → Option Input → Result DeltaSize
unfolding local_of remote_of report_delta_size
delta_size h net url local = Result.◌>>=◌ (local_of local) λ p.
    Result.◌>>=◌ (read_remote_header h (remote_of net url)) λ rh.
      Result.◌>>=◌ (plan_delta (some (or_empty p.0)) rh.index) λ plan. ok (report_delta_size plan)

-- The `download` command, without `--header` and on an output that never fails, reproduces a file
-- that `WriteFile` wrote and a server serves: the server answers each request for a range of bytes
-- that the file has with status 206 and these bytes. The local file was written by `WriteFile` too.
-- Both files must fit slices and their fields Go's types, the new one must have at least 89 bytes,
-- and its body must be reusable: its checksum type of the chunks is known, the local index has no
-- chunk or the same type, and the chunks make up the body, have the lengths and, where they are not
-- empty, the digests of their entries, and stand in the local body at every offset where a non-empty
-- local chunk of their digest stands.
pub download-file_bytes :
    (h : Hashes) (net : Network) (url : Bytes) (t t' : ChecksumType) (pre pre' : Preface)
    (idx idx' : Index) (sigs sigs' : Option Signatures) (body body' old new out : Bytes)
    → file_bytes h t pre idx sigs body ≡ ok old
    → IsCarrier pre
    → IsIndex (uncompressed_source pre) idx
    → length old ≤ max_int
    → file_bytes h t' pre' idx' sigs' body' ≡ ok new
    → IsCarrier pre'
    → IsIndex (uncompressed_source pre') idx'
    → max_lead_prefix ≤ length new
    → length new ≤ max_int
    → net.request_error url ≡ none
    → Answers net.default_client url new
    → Reusable h (some idx) (section body) idx' body'
    → download h net url (some (at_end, old)) none buffer out
      ≡ record { out = out ++ new; count = length new % u64_mod; result = ok tt }
unfolding download local_of remote_of new_http_range_reader
download-file_bytes h net url t t' pre pre' idx idx' sigs sigs' body body' old new out made c fits
      few made' c' fits' long few' valid answers reuse =
    let opened = open_local-file_bytes h t pre idx sigs body old at_end made c fits few in
    let serves =
      read_range-Serves net net.default_client url new 0 valid answers few' (omega arith) in
    rw opened (
      download_delta-file_bytes h t' pre' idx' sigs' body' new
        (read_range net (new_http_range_reader net url 0 none)) (some idx) (section body) out made'
        c' fits' long few' serves reuse)
