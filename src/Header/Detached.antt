-- ===== src/Header/Detached.antt =====
-- A header that `build_header` made is read back, verified, and located.
use zchunk.Prelude.{
  ℕ, ◌+◌, ◌-◌, ◌%◌, ◌≤◌, ◌<◌, ◌≡◌, ◌∙◌, sym, ap, refl, inl, inr, leb, Bool, false, Option, [], ◌∷◌,
  ◌++◌, length, length-append, take, take-append, All, append_assoc, append-nil, arith,
}
use zchunk.Go.Result
use zchunk.Go.Result.{Result, ok, max_int}
use zchunk.Go.Reader.{Bytes, at_end, Reads, read_full, read_full-Reads}
use zchunk.Checksum.{ChecksumType, Hashes, size}
use zchunk.Checksum.Digest.{size_total}
use zchunk.Lead.{Lead, lead_no_digest, verify_header, read_lead}
use zchunk.Lead.RoundTrip.{equal_iff, lead_layout, lead_layout-Reads, magic_of}
use zchunk.Preface.{Preface, uncompressed_source, read_preface}
use zchunk.Preface.RoundTrip.{IsElement, IsPreface, read_preface-preface_bytes}
use zchunk.Index.{Index, read_index}
use zchunk.Index.RoundTrip.{IsIndex, read_index-index_bytes}
use zchunk.Signatures.{Signatures, read_signatures}
use zchunk.Signatures.RoundTrip.{read_signatures-signatures_bytes}
use zchunk.File.{or_no_signatures, with_data_checksum, build_header}
use zchunk.File.Layout.{
  built_lead, header_digest, or_nil-sum, known_type-lt, assemble-layout, with_data_checksum-length,
  Sections, header_body-Sections, build_header-Built,
}
use zchunk.Header.{RemoteHeader, parse_header, read_detached_header}

-- What Go's types ask of a preface's other fields.
pub record IsCarrier (pre : Preface) : Type 0 where
  pub few_elements : length pre.optional_elements ≤ max_int
  pub elements : All IsElement pre.optional_elements

built_lead-verifies :
    (h : Hashes) (d : Bool) (t : ChecksumType) {n : ℕ} (hdr : Bytes)
    → size t ≡ ok n
    → verify_header h (built_lead h d t hdr) hdr ≡ ok tt
unfolding verify_header
built_lead-verifies h d t hdr known =
    let (made, _) = or_nil-sum h t (lead_no_digest t (length hdr) ++ hdr) known in
    rw (made, (equal_iff (header_digest h t hdr) (header_digest h t hdr)).1 refl)

-- The header that parsing returns.
abbrev pub parsed :
    Hashes → Bool → ChecksumType → Preface → Index → Signatures → Bytes → RemoteHeader
parsed h d t p idx sigs hdr = record {
  lead = built_lead h d t hdr;
  preface = p;
  index = idx;
  signatures = sigs;
  header_bytes = lead_layout (built_lead h d t hdr) ++ hdr;
  body_offset = (length (lead_layout (built_lead h d t hdr)) + length hdr) % Result.u64_mod;
}

parse_header-Sections :
    (h : Hashes) (d : Bool) (t : ChecksumType) {n : ℕ} (p : Preface) (idx : Index)
    (sigs : Signatures) (hdr : Bytes)
    → size t ≡ ok n
    → IsPreface t p
    → IsIndex (uncompressed_source p) idx
    → length hdr ≤ max_int
    → Sections p idx sigs hdr
    → parse_header h (built_lead h d t hdr) (lead_layout (built_lead h d t hdr)) hdr
      ≡ ok (parsed h d t p idx sigs hdr)
unfolding parse_header
parse_header-Sections h d t p idx sigs hdr known fp fi few s =
    let index_fits : length s.index ≤ max_int = omega (
      arith,
      ap length s.joined,
      length-append (s.pre ++ s.index) s.signatures,
      length-append s.pre s.index,
    ) in
    let pre_read : read_preface t at_end hdr ≡ ok (p, s.index ++ s.signatures) =
      ap (read_preface t at_end) (s.joined ∙ append_assoc s.pre s.index s.signatures)
      ∙ (read_preface-preface_bytes t p s.pre fp s.pre_written).run at_end
          (s.index ++ s.signatures) in
    let index_read : read_index (uncompressed_source p) at_end (s.index ++ s.signatures)
        ≡ ok (idx, s.signatures) =
      (read_index-index_bytes (uncompressed_source p) idx s.index fi index_fits s.index_written).run
        at_end s.signatures in
    let signatures_read : read_signatures at_end s.signatures ≡ ok (sigs, []) =
      ap (read_signatures at_end) (sym (append-nil s.signatures))
      ∙ (read_signatures-signatures_bytes sigs s.signatures s.signatures_written).1.run at_end [] in
    rw (built_lead-verifies h d t hdr known, pre_read, index_read, signatures_read)

-- The bytes that a reader has taken are those in front of the rest.
taken : (bs rest : Bytes) → take (length (bs ++ rest) - length rest) (bs ++ rest) ≡ bs
taken bs rest =
    let count : length (bs ++ rest) - length rest ≡ length bs =
      omega (arith, length-append bs rest) in
    rw count (take-append bs rest)

pub built_lead-Reads :
    (h : Hashes) (d : Bool) (t : ChecksumType) {n : ℕ} (hdr : Bytes)
    → size t ≡ ok n
    → length hdr ≤ max_int
    → Reads read_lead (lead_layout (built_lead h d t hdr)) (built_lead h d t hdr)
built_lead-Reads h d t hdr known few =
    let (_, digest_length) = or_nil-sum h t (lead_no_digest t (length hdr) ++ hdr) known in
    lead_layout-Reads (built_lead h d t hdr) (omega (arith, known_type-lt t known)) (omega arith)
      (known ∙ ap ok (sym digest_length))

read_detached_header-assemble :
    (h : Hashes) (d : Bool) (t : ChecksumType) {n : ℕ} (p : Preface) (idx : Index)
    (sigs : Signatures) (hdr : Bytes)
    → size t ≡ ok n
    → length hdr ≤ max_int
    → parse_header h (built_lead h d t hdr) (lead_layout (built_lead h d t hdr)) hdr
      ≡ ok (parsed h d t p idx sigs hdr)
    → Reads
        (read_detached_header h)
        (lead_layout (built_lead h d t hdr) ++ hdr)
        (parsed h d t p idx sigs hdr)
unfolding read_detached_header
read_detached_header-assemble h d t p idx sigs hdr known few e = record {
  run = λ end rest.
      let lead_read = (built_lead-Reads h d t hdr known few).run end (hdr ++ rest) in
      rw append_assoc (
        rw (
          lead_read,
          Result.make_fits (length hdr) few,
          (read_full-Reads hdr refl).run end rest,
          taken (lead_layout (built_lead h d t hdr)) (hdr ++ rest),
          e,
        ));
}

-- A header that says what `build_header` was given.
pub record Describes (h : Hashes) (d : Bool) (t : ChecksumType) (pre : Preface) (idx : Index)
    (sigs : Option Signatures) (body header : Bytes) (rh : RemoteHeader) : Type 0 where
  pub is_detached : rh.lead.detached ≡ d
  pub same_type : rh.lead.checksum_type ≡ t
  pub same_preface : rh.preface ≡ with_data_checksum h t (length rh.lead.header_checksum) pre body
  pub same_index : rh.index ≡ idx
  pub same_signatures : rh.signatures ≡ or_no_signatures sigs
  pub whole : rh.header_bytes ≡ header
  pub offset : rh.body_offset ≡ length header

-- The parsed header of a successful `build_header`, before it is known which reader parses it.
pub record Parses (h : Hashes) (d : Bool) (t : ChecksumType) (pre : Preface) (idx : Index)
    (sigs : Option Signatures) (body header : Bytes) : Type 0 where
  pub digest_size : ℕ
  pub known : size t ≡ ok digest_size
  pub hdr : Bytes
  pub few : length hdr ≤ max_int
  pub nonempty : 0 < length hdr
  pub layout : header ≡ lead_layout (built_lead h d t hdr) ++ hdr
  pub result : RemoteHeader
  pub describes : Describes h d t pre idx sigs body header result
  pub parses :
      parse_header h (built_lead h d t hdr) (lead_layout (built_lead h d t hdr)) hdr ≡ ok result
  pub reads : Reads (read_detached_header h) header result

pub source-with_data_checksum :
    (h : Hashes) (t : ChecksumType) (n : ℕ) (pre : Preface) (body : Bytes)
    → uncompressed_source (with_data_checksum h t n pre body) ≡ uncompressed_source pre
unfolding with_data_checksum uncompressed_source
source-with_data_checksum h t n pre body = refl

pub with_data_checksum-IsPreface :
    (h : Hashes) (t : ChecksumType) {n : ℕ} (pre : Preface) (body : Bytes)
    → size t ≡ ok n
    → IsCarrier pre
    → IsPreface t (with_data_checksum h t n pre body)
with_data_checksum-IsPreface h t {n} pre body known c = record {
  digest_size = known ∙ ap ok (sym (with_data_checksum-length h t pre body known));
  few_elements = unfold with_data_checksum in c.few_elements;
  elements = unfold with_data_checksum in c.elements;
}

-- A header body that is parsed holds a data checksum at least.
parse_header-nonempty :
    (h : Hashes) (lead : Lead) (lead_bytes hdr : Bytes) {n : ℕ} {rh : RemoteHeader}
    → size lead.checksum_type ≡ ok n
    → parse_header h lead lead_bytes hdr ≡ ok rh
    → 0 < length hdr
unfolding parse_header read_preface read_full
parse_header-nonempty h lead lead_bytes (b ∷ hdr) known e = omega arith
parse_header-nonempty h lead lead_bytes [] {n} known e =
    let (_, _, parsing) = Result.>>=-eq-ok (verify_header h lead []) _ e in
    let ((pre, rest), got, _) =
      Result.>>=-eq-ok (read_preface lead.checksum_type at_end []) _ parsing in
    let none_fits : leb n 0 ≡ false = elim (size_total lead.checksum_type) [
      | inl (m, same, _, many, _) ↦
          let m_is_n : m ≡ n = Result.ok-injective (sym same ∙ known) in
          ground (arith, many, m_is_n)
      | inr (unknown, _) ↦ cc
    ] in
    cc (rw (known, none_fits) at got)

pub build_header-Parses :
    (h : Hashes) (d : Bool) (t : ChecksumType) (pre : Preface) (idx : Index)
    (sigs : Option Signatures) (body header : Bytes)
    → IsCarrier pre
    → IsIndex (uncompressed_source pre) idx
    → length header ≤ max_int
    → build_header h (magic_of d) t pre idx sigs body ≡ ok header
    → Parses h d t pre idx sigs body header
build_header-Parses h d t pre idx sigs body header c fi few e =
    let b = build_header-Built h (magic_of d) t pre idx sigs body e in
    let p : Preface = with_data_checksum h t b.digest_size pre body in
    let layout : header ≡ lead_layout (built_lead h d t b.hdr) ++ b.hdr =
      b.assembled ∙ assemble-layout h d t b.hdr in
    let total = ap length layout ∙ length-append (lead_layout (built_lead h d t b.hdr)) b.hdr in
    let few_hdr : length b.hdr ≤ max_int = omega arith in
    let parsingok =
      parse_header-Sections h d t p idx (or_no_signatures sigs) b.hdr b.known
        (with_data_checksum-IsPreface h t pre body b.known c)
        (rw (source-with_data_checksum h t b.digest_size pre body) fi) few_hdr
        (header_body-Sections p idx (or_no_signatures sigs) b.written) in
    let digest_length = (or_nil-sum h t (lead_no_digest t (length b.hdr) ++ b.hdr) b.known).1 in
    record {
      digest_size = b.digest_size;
      known = b.known;
      hdr = b.hdr;
      few = few_hdr;
      nonempty = parse_header-nonempty h _ _ b.hdr b.known parsingok;
      layout = layout;
      result = parsed h d t p idx (or_no_signatures sigs) b.hdr;
      describes = record {
        is_detached = refl;
        same_type = refl;
        same_preface = rw digest_length;
        same_index = refl;
        same_signatures = refl;
        whole = sym layout;
        offset = omega arith;
      };
      parses = parsingok;
      reads = rw layout (
          read_detached_header-assemble h d t p idx (or_no_signatures sigs) b.hdr b.known few_hdr
            parsingok);
    }

-- `ReadDetachedHeader` reads back every header that `WriteFile` or `WriteDetachedHeader` builds,
-- whatever follows it: it takes exactly the header, returns the preface with its data checksum,
-- the index and the signatures, and locates the body right behind the header. The fields must
-- fit Go's types, and the header a slice.
pub read_detached_header-build_header :
    (h : Hashes) (d : Bool) (t : ChecksumType) (pre : Preface) (idx : Index)
    (sigs : Option Signatures) (body header : Bytes)
    → IsCarrier pre
    → IsIndex (uncompressed_source pre) idx
    → length header ≤ max_int
    → build_header h (magic_of d) t pre idx sigs body ≡ ok header
    → (rh : RemoteHeader) × Reads (read_detached_header h) header rh
      × Describes h d t pre idx sigs body header rh
read_detached_header-build_header h d t pre idx sigs body header c fi few e =
    let p = build_header-Parses h d t pre idx sigs body header c fi few e in
    (p.result, p.reads, p.describes)
