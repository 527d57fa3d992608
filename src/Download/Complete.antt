-- ===== src/Download/Complete.antt =====
-- What `DownloadDelta` makes of a file that this package wrote.
use mathlib.Core.Path.{subst}
use zchunk.Prelude.{
  ℕ, ◌%◌, ◌≤◌, ◌≡◌, ◌∙◌, sym, ap, refl, ◌⊎◌, inl, inr, if◌then◌else◌, Bool, true, false, Bool-cases,
  Option, List, [], ◌++◌, length, length-append, leb, le→leb, drop, drop-append, flatten,
  append_assoc, arith,
}
use zchunk.Go.Result
use zchunk.Go.Result.{Result, ok, panic, max_int, u64_mod}
use zchunk.Go.Reader.{Bytes}
use zchunk.Go.Writer.{write, buffer}
use zchunk.Checksum.{ChecksumType, Hashes, size, sum}
use zchunk.Lead.{magic, detached_magic}
use zchunk.Lead.RoundTrip.{equal_iff, magic_of}
use zchunk.Preface.{Preface, uncompressed_source}
use zchunk.Index.{Index}
use zchunk.Index.RoundTrip.{IsIndex}
use zchunk.Signatures.{Signatures}
use zchunk.File.{or_nil, with_data_checksum, build_header, file_bytes}
use zchunk.File.Layout.{or_nil-sum, assemble-layout, build_header-Built}
use zchunk.File.Detached.{with_magic, build_header-magic}
use zchunk.Header.{RemoteHeader, RangeReader, max_lead_prefix}
use zchunk.Header.Detached.{IsCarrier, Describes, source-with_data_checksum}
use zchunk.Header.Remote.{Serves, read_remote_header-build_header}
use zchunk.Delta.{local_chunks, local_type}
use zchunk.Delta.Plan.{plan_delta-Follows}
use zchunk.Extract.RoundTrip.{written-eq}
use zchunk.Assemble.{ReaderAt}
use zchunk.Assemble.Complete.{Pieces, assemble_body-Pieces}
use zchunk.Download.{
  offset_range, write_body, write_parts, embedded_header, check_data, download_delta_with_header,
  download_delta,
}
use zchunk.Download.Range.{offset_range-Serves}

-- The chunks of `body` are those that `idx` lists, and the local file can be used for them.
pub record Reusable (h : Hashes) (local_index : Option Index) (local : ReaderAt) (idx : Index)
    (body : Bytes) : Type 0 where
  pub digest_size : ℕ
  pub known : size idx.chunk_checksum_type ≡ ok digest_size
  pub agree : (local_chunks local_index ≡ []) ⊎ (local_type local_index ≡ idx.chunk_checksum_type)
  pub chunks : List Bytes
  pub pieces : Pieces h idx.chunk_checksum_type local (local_chunks local_index) idx.chunks chunks
  pub whole : body ≡ flatten chunks

restored :
    (rest : Bytes)
    → (if leb (length detached_magic) (length (detached_magic ++ rest))
        then ok (magic ++ drop (length detached_magic) (detached_magic ++ rest))
        else panic)
      ≡ ok (magic ++ rest)
restored rest =
    rw (le→leb (length detached_magic) (length (detached_magic ++ rest)) (omega arith)) refl

-- The embedded magic can be put back into every header that was built.
embedded_header-build_header :
    (h : Hashes) (d : Bool) (t : ChecksumType) (pre : Preface) (idx : Index)
    (sigs : Option Signatures) (body header full : Bytes) (rh : RemoteHeader)
    → build_header h (magic_of d) t pre idx sigs body ≡ ok header
    → build_header h magic t pre idx sigs body ≡ ok full
    → rh.lead.detached ≡ d
    → rh.header_bytes ≡ header
    → embedded_header rh ≡ ok full
unfolding embedded_header
embedded_header-build_header h false t pre idx sigs body header full rh made made' embedded
      verbatim =
    rw (embedded, verbatim) (sym made ∙ made')
embedded_header-build_header h true t pre idx sigs body header full rh made made' detached
      verbatim =
    let b = build_header-Built h magic t pre idx sigs body made' in
    let layout = b.assembled ∙ assemble-layout h false t b.hdr in
    let swapped : header ≡ with_magic detached_magic full =
      Result.ok-injective (sym made ∙ build_header-magic h t pre idx sigs body ∙ rw made' refl) in
    let split : full ≡ magic ++ drop 5 full = rw layout refl in
    rw (detached, verbatim, swapped) (restored (drop 5 full) ∙ ap ok (sym split))

-- The hasher of the body agrees with the data checksum of the preface.
check_data-Describes :
    (h : Hashes) (d : Bool) (t : ChecksumType) {n : ℕ} (pre : Preface) (idx : Index)
    (sigs : Option Signatures) (body header : Bytes) (rh : RemoteHeader)
    → size t ≡ ok n
    → Describes h d t pre idx sigs body header rh
    → check_data h rh body ≡ ok tt
unfolding check_data with_data_checksum
check_data-Describes h d t pre idx sigs body header rh known says =
    let m = length rh.lead.header_checksum in
    let flag : uncompressed_source rh.preface ≡ uncompressed_source pre =
      ap uncompressed_source says.same_preface ∙ source-with_data_checksum h t m pre body in
    let digest = ap (λ (p : Preface). p.data_checksum) says.same_preface in
    let hashed = (or_nil-sum h t body known).0 in
    let same = (equal_iff (or_nil (sum h t body)) (or_nil (sum h t body))).1 refl in
    elim (Bool-cases (uncompressed_source pre)) [
      | inl plain ↦ rw (flag, plain) refl
      | inr packed ↦ rw (flag, packed, says.same_type, hashed, digest, packed, same) refl
    ]

-- `DownloadDeltaWithHeader`, given a header that `WriteFile` or `WriteDetachedHeader` builds, as it
-- was read back, and a writer that never fails, writes the complete file, with an embedded header,
-- and returns its length as an int64. The reader, shifted by the length of the header, must give every
-- non-empty range of the body; the header and the body must fit a slice; and the body must be reusable: the
-- checksum type of the chunks is known, the local index has no chunk or the same type, and the chunks
-- make up the body: each has the length that its entry says and, if it is not empty, the digest, and
-- the local reader gives it, without an error, at every offset where a non-empty local chunk of its
-- digest stands.
pub download_delta_with_header-build_header :
    (h : Hashes) (d : Bool) (t : ChecksumType) (pre : Preface) (idx : Index)
    (sigs : Option Signatures) (body header full : Bytes) (rh : RemoteHeader) (remote : RangeReader)
    (local_index : Option Index) (local : ReaderAt) (out : Bytes)
    → build_header h (magic_of d) t pre idx sigs body ≡ ok header
    → build_header h magic t pre idx sigs body ≡ ok full
    → Describes h d t pre idx sigs body header rh
    → length (header ++ body) ≤ max_int
    → Serves (offset_range remote (length header)) body
    → Reusable h local_index local idx body
    → download_delta_with_header h rh remote local_index local buffer out ≡ record {
      out = out ++ (full ++ body);
      count = length (full ++ body) % u64_mod;
      result = ok tt;
    }
unfolding download_delta_with_header write_parts write_body write embedded_header check_data
download_delta_with_header-build_header h d t pre idx sigs body header full rh remote local_index
      local out made made' says few serves reuse =
    let b = build_header-Built h magic t pre idx sigs body made' in
    let swapped =
      embedded_header-build_header h d t pre idx sigs body header full rh made made'
        says.is_detached says.whole in
    let few_body : length body ≤ max_int = omega (arith, length-append header body) in
    elim (plan_delta-Follows local_index idx) [
      | inr (some_there, (apart, refused)) ↦ elim reuse.agree [
        | inl empty ↦ absurd (some_there empty)
        | inr same ↦ absurd (apart same)
      ]
      | inl (agree, (p, (planned, follows))) ↦
          let assembled =
            assemble_body-Pieces h idx local (local_chunks local_index) _ p reuse.chunks body
              (out ++ full) reuse.known few_body serves follows reuse.pieces reuse.whole in
          let checked = check_data-Describes h d t pre idx sigs body header rh b.known says in
          rw (says.same_index, planned, swapped, says.offset, assembled, drop-append, checked)
            (written-eq (ok tt) (append_assoc out full body)
              (omega (arith, length-append full body)))
    ]

-- `DownloadDelta`, on a writer that never fails, reproduces every file that `WriteFile` writes, byte
-- for byte behind what the writer held, and returns its length as an int64. The file must have at
-- least 89 bytes and fit a slice, the fields must fit Go's types, and the reader must give every
-- non-empty range of the file; and the body must be reusable: the
-- checksum type of the chunks is known, the local index has no chunk or the same type, and the chunks
-- make up the body: each has the length that its entry says and, if it is not empty, the digest, and
-- the local reader gives it, without an error, at every offset where a non-empty local chunk of its
-- digest stands.
pub download_delta-file_bytes :
    (h : Hashes) (t : ChecksumType) (pre : Preface) (idx : Index) (sigs : Option Signatures)
    (body file : Bytes) (remote : RangeReader) (local_index : Option Index) (local : ReaderAt)
    (out : Bytes)
    → file_bytes h t pre idx sigs body ≡ ok file
    → IsCarrier pre
    → IsIndex (uncompressed_source pre) idx
    → max_lead_prefix ≤ length file
    → length file ≤ max_int
    → Serves remote file
    → Reusable h local_index local idx body
    → download_delta h remote local_index local buffer out
      ≡ record { out = out ++ file; count = length file % u64_mod; result = ok tt }
unfolding download_delta file_bytes
download_delta-file_bytes h t pre idx sigs body file remote local_index local out made c fi long few
      serves reuse =
    let (header, built, joined) =
      Result.>>=-eq-ok (build_header h magic t pre idx sigs body) _ made in
    let whole : header ++ body ≡ file = Result.ok-injective joined in
    let few' : length (header ++ body) ≤ max_int = omega (arith, ap length whole) in
    let served = subst (Serves remote) (sym whole) serves in
    let (rh, got, says) =
      read_remote_header-build_header h false t pre idx sigs body header body remote c fi
        (omega (arith, length-append header body)) (omega (arith, ap length whole)) served built in
    rw got (
      download_delta_with_header-build_header h false t pre idx sigs body header header rh remote
        local_index local out built built says few'
        (offset_range-Serves remote header body few' served) reuse
      ∙ written-eq (ok tt) (ap (λ b. out ++ b) whole) (ap (λ b. length b % u64_mod) whole))
