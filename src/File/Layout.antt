-- ===== src/File/Layout.antt =====
-- What `build_header` puts together: a lead over the header's own length and digest, and the body
-- of the header.
use zchunk.Prelude.{
  ℕ, ◌<◌, ◌≡◌, sym, ap, refl, Bool, Option, ◌++◌, length, length-replicate, inl, inr, Bool-cases,
}
use zchunk.Go.Result
use zchunk.Go.Result.{Result, ok, err}
use zchunk.Go.Reader.{Bytes}
use zchunk.Checksum.{ChecksumType, Hashes, size, sum}
use zchunk.Checksum.Digest.{size_total, sum-size}
use zchunk.Lead.{Lead, lead_no_digest}
use zchunk.Lead.RoundTrip.{lead_layout, magic_of, append_two}
use zchunk.Preface.{Preface, uncompressed_source, preface_bytes}
use zchunk.Index.{Index, index_bytes}
use zchunk.Signatures.{Signatures, signatures_bytes}
use zchunk.File.{or_nil, or_no_signatures, with_data_checksum, header_body, assemble, build_header}

-- The digest that a header carries, and its lead.
abbrev pub header_digest : Hashes → ChecksumType → Bytes → Bytes
header_digest h t hdr = or_nil (sum h t (lead_no_digest t (length hdr) ++ hdr))

abbrev pub built_lead : Hashes → Bool → ChecksumType → Bytes → Lead
built_lead h d t hdr = record {
  detached = d;
  checksum_type = t;
  header_size = length hdr;
  header_checksum = header_digest h t hdr;
}

pub or_nil-sum :
    (h : Hashes) (t : ChecksumType) {n : ℕ} (b : Bytes)
    → size t ≡ ok n
    → (sum h t b ≡ ok (or_nil (sum h t b))) × (length (or_nil (sum h t b)) ≡ n)
or_nil-sum h t b known = let (d, made, long) = sum-size h t b known in rw made (refl, long)

pub known_type-lt : (t : ChecksumType) {n : ℕ} → size t ≡ ok n → t < 4
known_type-lt t e = elim (size_total t) [ inl (n, _, small, _, _) ↦ small | inr (unknown, _) ↦ cc ]

pub assemble-layout :
    (h : Hashes) (d : Bool) (t : ChecksumType) (hdr : Bytes)
    → assemble h (magic_of d) t hdr ≡ lead_layout (built_lead h d t hdr) ++ hdr
unfolding assemble
assemble-layout h d t hdr =
    ap (λ b. b ++ hdr) (append_two (magic_of d) t (length hdr) (header_digest h t hdr))

-- The data checksum has the length of the checksum type, on both branches.
pub with_data_checksum-length :
    (h : Hashes) (t : ChecksumType) {n : ℕ} (pre : Preface) (body : Bytes)
    → size t ≡ ok n
    → length (with_data_checksum h t n pre body).data_checksum ≡ n
unfolding with_data_checksum
with_data_checksum-length h t {n} pre body known = elim (Bool-cases (uncompressed_source pre)) [
  | inl suppressed ↦ rw suppressed (length-replicate n 0)
  | inr taken ↦ rw taken (or_nil-sum h t body known).1
]

-- The three sections that a successful `header_body` has joined.
pub record Sections (p : Preface) (idx : Index) (sigs : Signatures) (hdr : Bytes) : Type 0 where
  pub pre : Bytes
  pub index : Bytes
  pub signatures : Bytes
  pub pre_written : preface_bytes p ≡ ok pre
  pub index_written : index_bytes idx (uncompressed_source p) ≡ ok index
  pub signatures_written : signatures_bytes sigs ≡ ok signatures
  pub joined : hdr ≡ (pre ++ index) ++ signatures

pub header_body-Sections :
    (p : Preface) (idx : Index) (sigs : Signatures) {hdr : Bytes}
    → header_body p idx sigs ≡ ok hdr
    → Sections p idx sigs hdr
unfolding header_body
header_body-Sections p idx sigs e =
    let (pre, e₁, f₁) = Result.>>=-eq-ok (preface_bytes p) _ e in
    let (index, e₂, f₂) = Result.>>=-eq-ok (index_bytes idx (uncompressed_source p)) _ f₁ in
    let (signatures, e₃, f₃) = Result.>>=-eq-ok (signatures_bytes sigs) _ f₂ in
    record {
      pre = pre;
      index = index;
      signatures = signatures;
      pre_written = e₁;
      index_written = e₂;
      signatures_written = e₃;
      joined = sym (Result.ok-injective f₃);
    }

-- What a successful `build_header` has done.
pub record Built (h : Hashes) (id : Bytes) (t : ChecksumType) (pre : Preface) (idx : Index)
    (sigs : Option Signatures) (body header : Bytes) : Type 0 where
  pub digest_size : ℕ
  pub known : size t ≡ ok digest_size
  pub hdr : Bytes
  pub written :
      header_body (with_data_checksum h t digest_size pre body) idx (or_no_signatures sigs) ≡ ok hdr
  pub assembled : header ≡ assemble h id t hdr

pub build_header-Built :
    (h : Hashes) (id : Bytes) (t : ChecksumType) (pre : Preface) (idx : Index)
    (sigs : Option Signatures) (body : Bytes) {header : Bytes}
    → build_header h id t pre idx sigs body ≡ ok header
    → Built h id t pre idx sigs body header
unfolding build_header
build_header-Built h id t pre idx sigs body e =
    let (n, e₁, f₁) = Result.>>=-eq-ok (size t) _ e in
    let (hdr, e₂, f₂) =
      Result.>>=-eq-ok (header_body (with_data_checksum h t n pre body) idx (or_no_signatures sigs))
        _ f₁ in
    record {
      digest_size = n;
      known = e₁;
      hdr = hdr;
      written = e₂;
      assembled = sym (Result.ok-injective f₂);
    }
