-- ===== src/Header/Remote.antt =====
-- A header that `build_header` made is read back over a range reader.
use zchunk.Prelude.{
  ℕ, ◌+◌, ◌-◌, ◌≤◌, ◌<◌, leb→le, ◌≡◌, ◌∙◌, sym, ap, refl, Bool, inl, inr, Option, [], ◌++◌, ==_iff,
  length, length-append, take, drop, take-append, drop-append, take-append_more, append_assoc,
  arith,
}
use zchunk.Go.Result
use zchunk.Go.Result.{Result, ok, err, max_int}
use zchunk.Go.Reader.{Bytes, at_end}
use zchunk.CompressedInt.{append_compressed_int}
use zchunk.CompressedInt.Encode.{append_compressed_int_shape}
use zchunk.Checksum.{ChecksumType, Hashes, size}
use zchunk.Checksum.Digest.{size_total}
use zchunk.Lead.{Lead, lead_no_digest}
use zchunk.Lead.RoundTrip.{lead_layout, magic_of, length-magic_of}
use zchunk.Preface.{Preface, uncompressed_source}
use zchunk.Index.{Index}
use zchunk.Index.RoundTrip.{IsIndex}
use zchunk.Signatures.{Signatures}
use zchunk.File.{build_header}
use zchunk.File.Layout.{built_lead, header_digest, or_nil-sum, known_type-lt}
use zchunk.Header.{RemoteHeader, RangeReader, max_lead_prefix, lead_length, read_remote_header}
use zchunk.Header.Detached.{IsCarrier, Describes, built_lead-Reads, build_header-Parses}

-- The reader gives the bytes of every range that is not empty and lies in the file.
pub record Serves (remote : RangeReader) (file : Bytes) : Type 0 where
  pub ranges :
      (offset n : ℕ)
      → 0 < n
      → offset + n ≤ length file
      → remote offset n ≡ ok (take n (drop offset file))

size-small : (t : ChecksumType) {n : ℕ} → size t ≡ ok n → n ≤ 64
size-small t e = elim (size_total t) [
  | inl (n, same, _, _, small) ↦ omega (arith, Result.ok-injective (sym same ∙ e))
  | inr (unknown, _) ↦ cc
]

-- The computed length of the lead is the true one, and the first request is long enough for it.
lead_length-built_lead :
    (h : Hashes) (d : Bool) (t : ChecksumType) {n : ℕ} (hdr : Bytes)
    → size t ≡ ok n
    → length hdr ≤ max_int
    → (lead_length (built_lead h d t hdr) ≡ length (lead_layout (built_lead h d t hdr)))
      × (length (lead_layout (built_lead h d t hdr)) ≤ max_lead_prefix)
unfolding lead_length
lead_length-built_lead h d t {n} hdr known few =
    let ty : Bytes = append_compressed_int [] t in
    let len : Bytes = append_compressed_int [] (length hdr) in
    let digest : Bytes = header_digest h t hdr in
    let (_, digest_length) = or_nil-sum h t (lead_no_digest t (length hdr) ++ hdr) known in
    let (_, _, _, ty_short) =
      append_compressed_int_shape [] t (omega (arith, known_type-lt t known)) in
    let (_, _, _, len_short) = append_compressed_int_shape [] (length hdr) (omega arith) in
    let total : length (lead_layout (built_lead h d t hdr)) ≡ 5 + length ty + length len + n =
      omega (
        arith,
        length-append (magic_of d) (ty ++ (len ++ digest)),
        length-append ty (len ++ digest),
        length-append len digest,
        digest_length,
        length-magic_of d,
      ) in
    let short : length (lead_layout (built_lead h d t hdr)) ≤ max_lead_prefix =
      omega (arith, size-small t known) in
    rw known (sym total, short)

-- `ReadRemoteHeader` reads back every header that `WriteFile` or `WriteDetachedHeader` builds,
-- from a file that begins with it and has at least 89 bytes, over a range reader that gives the
-- bytes of every non-empty range that lies in the file: it returns the preface with its data checksum, the
-- index and the signatures, and locates the body right behind the header. The fields must fit
-- Go's types, and the header a slice.
pub read_remote_header-build_header :
    (h : Hashes) (d : Bool) (t : ChecksumType) (pre : Preface) (idx : Index)
    (sigs : Option Signatures) (body header rest : Bytes) (remote : RangeReader)
    → IsCarrier pre
    → IsIndex (uncompressed_source pre) idx
    → length header ≤ max_int
    → max_lead_prefix ≤ length (header ++ rest)
    → Serves remote (header ++ rest)
    → build_header h (magic_of d) t pre idx sigs body ≡ ok header
    → (rh : RemoteHeader) × (read_remote_header h remote ≡ ok rh)
      × Describes h d t pre idx sigs body header rh
unfolding read_remote_header
read_remote_header-build_header h d t pre idx sigs body header rest remote c fi few long serves e =
    let p = build_header-Parses h d t pre idx sigs body header c fi few e in
    let lead : Lead = built_lead h d t p.hdr in
    let (same_length, short) = lead_length-built_lead h d t p.hdr p.known p.few in
    let file : header ++ rest ≡ lead_layout lead ++ (p.hdr ++ rest) =
      ap (λ b. b ++ rest) p.layout ∙ append_assoc (lead_layout lead) p.hdr rest in
    let first : remote 0 max_lead_prefix
        ≡ ok (
            lead_layout lead
            ++ take (max_lead_prefix - length (lead_layout lead)) (p.hdr ++ rest)) =
      serves.ranges 0 max_lead_prefix (leb→le 1 max_lead_prefix refl) long
      ∙ ap ok (
          ap (take max_lead_prefix) file
          ∙ take-append_more max_lead_prefix (lead_layout lead) (p.hdr ++ rest) short) in
    let lead_read =
      (built_lead-Reads h d t p.hdr p.known p.few).run at_end
        (take (max_lead_prefix - length (lead_layout lead)) (p.hdr ++ rest)) in
    let located : drop (lead_length lead) (header ++ rest) ≡ p.hdr ++ rest =
      rw (same_length, file) (drop-append (lead_layout lead) (p.hdr ++ rest)) in
    let second : remote (lead_length lead) (length p.hdr) ≡ ok p.hdr =
      serves.ranges (lead_length lead) (length p.hdr) p.nonempty (
        omega (
          arith,
          ap length file,
          length-append (lead_layout lead) (p.hdr ++ rest),
          length-append p.hdr rest,
          same_length,
        ))
      ∙ ap (λ b. ok (take (length p.hdr) b)) located
      ∙ ap ok (take-append p.hdr rest) in
    let verbatim : take (lead_length lead)
          (lead_layout lead ++ take (max_lead_prefix - length (lead_layout lead)) (p.hdr ++ rest))
        ≡ lead_layout lead =
      rw same_length (take-append (lead_layout lead) _) in
    (
      p.result,
      rw (
        first,
        lead_read,
        second,
        (==_iff (length p.hdr) (length p.hdr)).1 refl,
        verbatim,
        p.parses,
      ),
      p.describes,
    )
