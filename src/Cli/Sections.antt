-- ===== src/Cli/Sections.antt =====
-- The header of a file that this package wrote, as the commands read it.
use zchunk.Prelude.{
  ◌≤◌, ◌≡◌, ◌∙◌, sym, ap, refl, false, Option, ◌++◌, length, length-append, append_assoc, arith,
}
use zchunk.Go.Result
use zchunk.Go.Result.{ok, max_int}
use zchunk.Go.Reader.{Bytes, Ending, Reads, Reads-bind, Reads-last, Reads-bytes}
use zchunk.Checksum.{ChecksumType, Hashes}
use zchunk.Lead.RoundTrip.{lead_layout, magic_of}
use zchunk.Preface.{Preface, uncompressed_source}
use zchunk.Preface.RoundTrip.{read_preface-preface_bytes}
use zchunk.Index.{Index}
use zchunk.Index.RoundTrip.{IsIndex, read_index-index_bytes}
use zchunk.Signatures.{Signatures}
use zchunk.Signatures.RoundTrip.{read_signatures-signatures_bytes}
use zchunk.File.{or_no_signatures, with_data_checksum, build_header, file_bytes}
use zchunk.File.Layout.{built_lead, assemble-layout, header_body-Sections, build_header-Built}
use zchunk.Header.Detached.{
  IsCarrier, built_lead-Reads, source-with_data_checksum, with_data_checksum-IsPreface,
}
use zchunk.Cli.{Headers, read_headers, section, open_local}

-- The sections of a built header, as they are read back.
pub record ReadBack (h : Hashes) (t : ChecksumType) (pre : Preface) (idx : Index)
    (body header : Bytes) : Type 0 where
  pub headers : Headers
  pub reads : Reads read_headers header headers
  pub same_index : headers.index ≡ idx
  pub same_type : headers.preface.compression_type ≡ pre.compression_type

pub read_headers-build_header :
    (h : Hashes) (t : ChecksumType) (pre : Preface) (idx : Index) (sigs : Option Signatures)
    (body header : Bytes)
    → IsCarrier pre
    → IsIndex (uncompressed_source pre) idx
    → length header ≤ max_int
    → build_header h (magic_of false) t pre idx sigs body ≡ ok header
    → ReadBack h t pre idx body header
unfolding read_headers with_data_checksum
read_headers-build_header h t pre idx sigs body header c fi few e =
    let b = build_header-Built h (magic_of false) t pre idx sigs body e in
    let p : Preface = with_data_checksum h t b.digest_size pre body in
    let s = header_body-Sections p idx (or_no_signatures sigs) b.written in
    let lead = built_lead h false t b.hdr in
    let layout : header ≡ lead_layout lead ++ b.hdr =
      b.assembled ∙ assemble-layout h false t b.hdr in
    let joined : lead_layout lead ++ (s.pre ++ (s.index ++ s.signatures)) ≡ header =
      ap (λ x. lead_layout lead ++ x) (sym (append_assoc s.pre s.index s.signatures) ∙ sym s.joined)
      ∙ sym layout in
    let total = ap length layout ∙ length-append (lead_layout lead) b.hdr in
    let parts = ap length s.joined ∙ length-append (s.pre ++ s.index) s.signatures in
    let index_fits : length s.index ≤ max_int =
      omega (arith, total, parts, length-append s.pre s.index, few) in
    let few_hdr : length b.hdr ≤ max_int = omega (arith, total, few) in
    let source = source-with_data_checksum h t b.digest_size pre body in
    let carried = with_data_checksum-IsPreface h t pre body b.known c in
    record {
      headers = record {
        lead = lead;
        preface = p;
        index = idx;
        signatures = or_no_signatures sigs;
      };
      reads = Reads-bytes joined (
          Reads-bind _ (built_lead-Reads h false t b.hdr b.known few_hdr) (
            Reads-bind _ (read_preface-preface_bytes t p s.pre carried s.pre_written) (
              Reads-bind _
                (read_index-index_bytes (uncompressed_source p) idx s.index (rw source fi)
                  index_fits s.index_written)
                (Reads-last _
                  (read_signatures-signatures_bytes (or_no_signatures sigs) s.signatures
                    s.signatures_written).1))));
      same_index = refl;
      same_type = refl;
    }

-- From every file that `WriteFile` writes, if it fits a slice and its fields fit Go's types,
-- `openLocal` takes the index and a reader over exactly the body.
pub open_local-file_bytes :
    (h : Hashes) (t : ChecksumType) (pre : Preface) (idx : Index) (sigs : Option Signatures)
    (body file : Bytes) (end : Ending)
    → file_bytes h t pre idx sigs body ≡ ok file
    → IsCarrier pre
    → IsIndex (uncompressed_source pre) idx
    → length file ≤ max_int
    → open_local end file ≡ ok (idx, section body)
unfolding open_local file_bytes
open_local-file_bytes h t pre idx sigs body file end made c fi few =
    let (header, built, joined) =
      Result.>>=-eq-ok (build_header h (magic_of false) t pre idx sigs body) _ made in
    let whole : file ≡ header ++ body = sym (Result.ok-injective joined) in
    let total = ap length whole ∙ length-append header body in
    let r =
      read_headers-build_header h t pre idx sigs body header c fi (omega (arith, total, few))
        built in
    let opened = ap (read_headers end) whole ∙ r.reads.run end body in
    rw (opened, r.same_index) refl
