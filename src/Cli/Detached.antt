-- ===== src/Cli/Detached.antt =====
-- The `header` command on a file that this package wrote.
use zchunk.Prelude.{
  ℕ, ◌+◌, ◌-◌, ◌%◌, ◌≤◌, ◌≡◌, ◌∙◌, sym, ap, refl, false, Option, ◌++◌, le→leb, length,
  length-append, take-append, drop, append_assoc, arith,
}
use zchunk.Go.Result
use zchunk.Go.Result.{Result, ok, max_int, u64_mod, ◌>>=◌}
use zchunk.Go.Reader.{Bytes, Ending}
use zchunk.Checksum.{ChecksumType, Hashes}
use zchunk.Lead.{magic, detached_magic, read_lead}
use zchunk.Lead.RoundTrip.{lead_layout}
use zchunk.Preface.{Preface}
use zchunk.Index.{Index}
use zchunk.Signatures.{Signatures}
use zchunk.File.{build_header, file_bytes}
use zchunk.File.Layout.{built_lead, assemble-layout, build_header-Built}
use zchunk.File.Detached.{with_magic, build_header-magic}
use zchunk.Header.Detached.{built_lead-Reads}
use zchunk.Cli.{read_front, swap_magic, detached_header}

read_front-append :
    (a b : Bytes) (n : ℕ) (end : Ending) → n ≡ length a → read_front n end (a ++ b) ≡ ok a
unfolding read_front
read_front-append a b n end e =
    rw (e, le→leb (length a) (length (a ++ b)) (omega (arith, length-append a b)), take-append) refl

-- From every file that `WriteFile` writes, if it fits a slice, the `header` command makes the
-- header that `WriteDetachedHeader` writes for the same preface, index, signatures and body.
pub detached_header-file_bytes :
    (h : Hashes) (t : ChecksumType) (pre : Preface) (idx : Index) (sigs : Option Signatures)
    (body file : Bytes) (end : Ending)
    → file_bytes h t pre idx sigs body ≡ ok file
    → length file ≤ max_int
    → detached_header end file ≡ build_header h detached_magic t pre idx sigs body
unfolding detached_header file_bytes
detached_header-file_bytes h t pre idx sigs body file end made few =
    let (header, built, joined) =
      Result.>>=-eq-ok (build_header h magic t pre idx sigs body) _ made in
    let whole : file ≡ header ++ body = sym (Result.ok-injective joined) in
    let b = build_header-Built h magic t pre idx sigs body built in
    let lead = built_lead h false t b.hdr in
    let layout : header ≡ lead_layout lead ++ b.hdr =
      b.assembled ∙ assemble-layout h false t b.hdr in
    let split : file ≡ lead_layout lead ++ (b.hdr ++ body) =
      whole ∙ ap (λ x. x ++ body) layout ∙ append_assoc (lead_layout lead) b.hdr body in
    let total = ap length whole ∙ length-append header body in
    let parts = ap length layout ∙ length-append (lead_layout lead) b.hdr in
    let front_five : header ≡ magic ++ drop 5 header = rw layout refl in
    let front = ap length split ∙ length-append (lead_layout lead) (b.hdr ++ body) in
    let few_hdr : length b.hdr ≤ max_int = omega (arith, total, parts, few) in
    let lead_read =
      ap (λ s. read_lead end s) split
      ∙ (built_lead-Reads h false t b.hdr b.known few_hdr).run end (b.hdr ++ body) in
    let size : (length file - length (b.hdr ++ body) + length b.hdr) % u64_mod ≡ length header =
      omega (arith, front, total, parts, few) in
    let fits = Result.make_fits (length header) (omega (arith, total, few)) in
    let got : read_front (length header) end file ≡ ok header =
      ap (read_front (length header) end) whole
      ∙ read_front-append header body (length header) end refl in
    let swapped : swap_magic header ≡ ok (with_magic detached_magic header) =
      rw (le→leb 5 (length header) (omega (arith, ap length front_five))) refl in
    rw (lead_read, size, fits, got, build_header-magic h t pre idx sigs body, built) swapped
