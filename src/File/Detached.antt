-- ===== src/File/Detached.antt =====
-- The two forms of a header.
use zchunk.Prelude.{ℕ, ◌≡◌, sym, ap, refl, ◌∙◌, true, false, Option, ◌++◌, drop, length}
use zchunk.Go.Result.{Result, ok, err, panic, stuck, ◌>>=◌}
use zchunk.Go.Reader.{Bytes}
use zchunk.Checksum.{ChecksumType, Hashes, size}
use zchunk.Lead.{magic, detached_magic}
use zchunk.Preface.{Preface}
use zchunk.Index.{Index}
use zchunk.Signatures.{Signatures}
use zchunk.File.{or_no_signatures, with_data_checksum, header_body, assemble, build_header}
use zchunk.File.Layout.{assemble-layout}

-- A header with its first five bytes replaced, as the `header` command makes a detached one.
abbrev pub with_magic : Bytes → Bytes → Bytes
with_magic id header = id ++ drop (length id) header

assemble-magic :
    (h : Hashes) (t : ChecksumType) (hdr : Bytes)
    → assemble h detached_magic t hdr ≡ with_magic detached_magic (assemble h magic t hdr)
assemble-magic h t hdr =
    assemble-layout h true t hdr
    ∙ sym (ap (with_magic detached_magic) (assemble-layout h false t hdr))

assembled-magic :
    (h : Hashes) (t : ChecksumType) (hdr : Result Bytes)
    → (hdr >>= λ b. ok (assemble h detached_magic t b))
      ≡ ((hdr >>= λ b. ok (assemble h magic t b)) >>= λ b. ok (with_magic detached_magic b))
assembled-magic h t (ok b) = ap ok (assemble-magic h t b)
assembled-magic h t (err e) = refl
assembled-magic h t panic = refl
assembled-magic h t stuck = refl

-- On every input, a detached header is the embedded one with its first five bytes replaced, so
-- that both carry the same digest; and where one of the two is refused, so is the other, with
-- the same error.
pub build_header-magic :
    (h : Hashes) (t : ChecksumType) (pre : Preface) (idx : Index) (sigs : Option Signatures)
    (body : Bytes)
    → build_header h detached_magic t pre idx sigs body
      ≡ (build_header h magic t pre idx sigs body >>= λ b. ok (with_magic detached_magic b))
unfolding build_header
build_header-magic h t pre idx sigs body = by_size (size t)
  where
    by_size :
        (r : Result ℕ)
        → (r >>= λ n.
            header_body (with_data_checksum h t n pre body) idx (or_no_signatures sigs) >>= λ hdr.
            ok (assemble h detached_magic t hdr))
          ≡ ((r >>= λ n.
                header_body (with_data_checksum h t n pre body) idx (or_no_signatures sigs)
                >>= λ hdr. ok (assemble h magic t hdr))
              >>= λ b. ok (with_magic detached_magic b))
    by_size (ok n) =
        assembled-magic h t
          (header_body (with_data_checksum h t n pre body) idx (or_no_signatures sigs))
    by_size (err e) = refl
    by_size panic = refl
    by_size stuck = refl
