-- ===== src/Cli/WithHeader.antt =====
-- The commands `header` and `download --header`, one after the other.
use zchunk.Prelude.{
  ◌%◌, ◌≤◌, ◌≡◌, ◌∙◌, sym, ap, refl, true, false, Option, none, some, ◌++◌, drop, length,
  length-append, append-nil, drop-append, [], arith,
}
use mathlib.Core.Path.{subst}
use zchunk.Go.Result
use zchunk.Go.Result.{ok, max_int, u64_mod}
use zchunk.Go.Reader.{Bytes, at_end}
use zchunk.Go.Writer.{buffer}
use zchunk.Checksum.{ChecksumType, Hashes}
use zchunk.Lead.{magic, detached_magic}
use zchunk.Preface.{Preface, uncompressed_source}
use zchunk.Index.{Index}
use zchunk.Index.RoundTrip.{IsIndex}
use zchunk.Signatures.{Signatures}
use zchunk.File.{build_header, file_bytes}
use zchunk.File.Detached.{with_magic, build_header-magic}
use zchunk.File.Layout.{build_header-Built, assemble-layout}
use zchunk.Extract.RoundTrip.{written-eq}
use zchunk.Header.{read_detached_header}
use zchunk.Header.Remote.{Serves}
use zchunk.Header.Detached.{IsCarrier, read_detached_header-build_header}
use zchunk.Download.Complete.{Reusable, download_delta_with_header-build_header}
use zchunk.Http.{Network, new_http_range_reader, read_range}
use zchunk.Http.Range.{AnswersFrom, offset_range-read_range}
use zchunk.Cli.{section, detached_header}
use zchunk.Cli.Detached.{detached_header-file_bytes}
use zchunk.Cli.Sections.{open_local-file_bytes}
use zchunk.Cli.Remote.{download, local_of, remote_of}

-- Both forms of a header have the same length.
detached-length :
    (h : Hashes) (t : ChecksumType) (pre : Preface) (idx : Index) (sigs : Option Signatures)
    (body full header : Bytes)
    → build_header h magic t pre idx sigs body ≡ ok full
    → build_header h detached_magic t pre idx sigs body ≡ ok header
    → length full ≡ length header
detached-length h t pre idx sigs body full header made made' =
    let b = build_header-Built h magic t pre idx sigs body made in
    let layout = b.assembled ∙ assemble-layout h false t b.hdr in
    let swapped : header ≡ with_magic detached_magic full =
      Result.ok-injective (sym made' ∙ build_header-magic h t pre idx sigs body ∙ rw made refl) in
    let split : full ≡ magic ++ drop 5 full = rw layout refl in
    omega (arith, ap length swapped, ap length split)

-- A detached header that the `header` command makes of a file is enough for the `download` command with
-- `--header` to reproduce the file, on an output that never fails, with ranges of the body alone: the
-- server answers each request for a range of the new file's bytes that begins behind as many bytes as
-- the header has with status 206 and these bytes, and any other request as it likes. Both files were
-- written by `WriteFile`, fit slices, and their fields Go's types; and the body of the new file must be
-- reusable: its checksum type of the chunks is known, the local index has no chunk or the same type,
-- and the chunks make up the body, have the lengths and, where they are not empty, the digests of their
-- entries, and stand in the local body at every offset where a non-empty local chunk of their digest
-- stands.
pub download-detached_header :
    (h : Hashes) (net : Network) (url : Bytes) (t t' : ChecksumType) (pre pre' : Preface)
    (idx idx' : Index) (sigs sigs' : Option Signatures) (body body' old new header out : Bytes)
    → file_bytes h t pre idx sigs body ≡ ok old
    → IsCarrier pre
    → IsIndex (uncompressed_source pre) idx
    → length old ≤ max_int
    → file_bytes h t' pre' idx' sigs' body' ≡ ok new
    → IsCarrier pre'
    → IsIndex (uncompressed_source pre') idx'
    → length new ≤ max_int
    → detached_header at_end new ≡ ok header
    → net.request_error url ≡ none
    → AnswersFrom (length header) net.default_client url new
    → Reusable h (some idx) (section body) idx' body'
    → download h net url (some (at_end, old)) (some (at_end, header)) buffer out
      ≡ record { out = out ++ new; count = length new % u64_mod; result = ok tt }
unfolding download local_of remote_of new_http_range_reader file_bytes
download-detached_header h net url t t' pre pre' idx idx' sigs sigs' body body' old new header out
      made c fits few made' c' fits' few' split valid answers reuse =
    let opened = open_local-file_bytes h t pre idx sigs body old at_end made c fits few in
    let (full, built, joined) =
      Result.>>=-eq-ok (build_header h magic t' pre' idx' sigs' body') _ made' in
    let whole : full ++ body' ≡ new = Result.ok-injective joined in
    let detached =
      sym (detached_header-file_bytes h t' pre' idx' sigs' body' new at_end made' few') ∙ split in
    let same = detached-length h t' pre' idx' sigs' body' full header built detached in
    let total = ap length (sym whole) ∙ length-append full body' in
    let (rh, read, says) =
      read_detached_header-build_header h true t' pre' idx' sigs' body' header c' fits'
        (omega (arith, total, same, few')) detached in
    let got = ap (read_detached_header h at_end) (sym (append-nil header)) ∙ read.run at_end [] in
    let serves =
      offset_range-read_range net net.default_client url new (length header) valid answers few'
        (omega (arith, total, same)) in
    let behind : drop (length header) new ≡ body' =
      ap (drop (length header)) (sym whole)
      ∙ ap (λ n. drop n (full ++ body')) (sym same)
      ∙ drop-append full body' in
    rw (opened, got)
      (download_delta_with_header-build_header h true t' pre' idx' sigs' body' header full rh
          (read_range net (new_http_range_reader net url 0 none)) (some idx) (section body) out
          detached built says
          (omega (
            arith,
            length-append header body',
            length-append full body',
            same,
            ap length whole,
            few',
          ))
          (subst (Serves _) behind serves) reuse
        ∙ written-eq (ok tt) (ap (λ b. out ++ b) whole) (ap (λ b. length b % u64_mod) whole))
