-- ===== src/Download/Checked.antt =====
-- What a download has checked and counted, whatever the readers and the writer did.
use zchunk.Prelude.{
  ℕ, ◌+◌, ◌%◌, ◌≡◌, ◌≢◌, ◌∙◌, sym, ap, refl, ◌⊎◌, inl, inr, true, false, leb, leb→le, take,
  length-take, take-append-drop, Bool-cases, Option, Option-cases, List, [], ◌∷◌, ◌++◌, length,
  length-append, drop, drop-append, flatten, append_assoc, arith,
}
use zchunk.Go.Error.{Context}
use zchunk.Go.Result
use zchunk.Go.Result.{Result, ok, err, panic, stuck, in_context, u64_mod}
use zchunk.Go.Reader.{Bytes}
use zchunk.Go.Writer.{Writer, Written, write}
use zchunk.Checksum.{Hashes, sum}
use zchunk.Lead.{equal, magic}
use zchunk.Lead.RoundTrip.{equal_iff}
use zchunk.Preface.{uncompressed_source}
use zchunk.Index.{Index}
use zchunk.Header.{RemoteHeader, RangeReader, read_remote_header}
use zchunk.Delta.{DeltaPlan, plan_delta}
use zchunk.Extract.Account.{
  Accounts, Accounts-stop, Accounts-or_return, Accounts-trans, write-Accounts,
}
use zchunk.Assemble.{ReaderAt, remote_runs, result_of, assemble_with, assemble_body}
use zchunk.Assemble.Checked.{
  AllVerified, or_return-eq-ok, assemble_with-Verified, assemble_with-Accounts,
}
use zchunk.Download.{
  offset_range, embedded_header, matches, check_data, write_body, write_parts,
  download_delta_with_header, download_delta,
}

-- The body has the preface's data checksum, where the file has one.
abbrev pub DataChecked : Hashes → RemoteHeader → Bytes → Type 0
DataChecked h rh body =
    (uncompressed_source rh.preface ≡ true)
    ⊎ ((sum h rh.lead.checksum_type body ≡ ok rh.preface.data_checksum)
        ⊎ ((body ≡ []) × ((made : Bytes) → sum h rh.lead.checksum_type body ≢ ok made)))

matches-eq-ok :
    (made : Result Bytes) (digest body : Bytes)
    → matches made digest body ≡ ok tt
    → (made ≡ ok digest) ⊎ ((body ≡ []) × ((d : Bytes) → made ≢ ok d))
matches-eq-ok (ok made) digest body e = elim (Bool-cases (equal made digest)) [
  | inl same ↦ inl (ap ok ((equal_iff made digest).0 same))
  | inr differ ↦ cc (rw differ at e)
]
matches-eq-ok (err x) digest [] e = inr (refl, λ d same. cc)
matches-eq-ok panic digest [] e = inr (refl, λ d same. cc)
matches-eq-ok stuck digest [] e = inr (refl, λ d same. cc)
matches-eq-ok (err x) digest (b ∷ body) e = cc
matches-eq-ok panic digest (b ∷ body) e = cc
matches-eq-ok stuck digest (b ∷ body) e = cc

check_data-eq-ok :
    (h : Hashes) (rh : RemoteHeader) (body : Bytes)
    → check_data h rh body ≡ ok tt
    → DataChecked h rh body
unfolding check_data
check_data-eq-ok h rh body e = elim (Bool-cases (uncompressed_source rh.preface)) [
  | inl plain ↦ inl plain
  | inr packed ↦ inr (
      matches-eq-ok (sum h rh.lead.checksum_type body) rh.preface.data_checksum body
        (rw packed at e))
]

write-eq-ok :
    (w : Writer) (out p : Bytes)
    → (write w out p).result ≡ ok tt
    → ((write w out p).out ≡ out ++ p) × ((write w out p).count ≡ length p % u64_mod)
unfolding write
write-eq-ok w out p e = elim (Option-cases (w out p)) [
  | inl whole ↦ rw (whole, write) (refl, refl)
  | inr (n, part) ↦ cc (rw (part, write) at e)
]

-- The header as a full file has it: as it was read or, if it was detached, with the embedded magic in
-- place of its first five bytes.
pub data Embeds (rh : RemoteHeader) (header : Bytes) : Type 0 where
  kept : rh.lead.detached ≡ false → header ≡ rh.header_bytes → Embeds rh header
  swapped :
      (first rest : Bytes)
      → rh.lead.detached ≡ true
      → length first ≡ 5
      → rh.header_bytes ≡ first ++ rest
      → header ≡ magic ++ rest
      → Embeds rh header

panic-ne-ok : {a : Bytes} → ◌≢◌ {A = Result Bytes} panic (ok a)
panic-ne-ok h = cc

embedded_header-Embeds :
    (rh : RemoteHeader) (header : Bytes) → embedded_header rh ≡ ok header → Embeds rh header
unfolding embedded_header
embedded_header-Embeds rh header e = elim (Bool-cases rh.lead.detached) [
  | inr embedded ↦ kept embedded (sym (Result.ok-injective (rw embedded at e)))
  | inl detached ↦
      let full = rw detached at e in
      elim (Bool-cases (leb 5 (length rh.header_bytes))) [
        | inl long ↦
            swapped (take 5 rh.header_bytes) (drop 5 rh.header_bytes) detached
              (omega (arith, length-take 5 rh.header_bytes, leb→le 5 _ long))
              (sym (take-append-drop 5 rh.header_bytes))
              (sym (Result.ok-injective (rw long at full)))
        | inr short ↦ absurd (panic-ne-ok (rw short at full))
      ]
]

-- What a download that succeeds has written and checked.
pub record Downloaded (h : Hashes) (rh : RemoteHeader) (local_index : Option Index) (out : Bytes)
    (r : Written) : Type 0 where
  pub plan : DeltaPlan
  pub planned : plan_delta local_index rh.index ≡ ok plan
  pub header : Bytes
  pub embedded : Embeds rh header
  pub pieces : List Bytes
  pub verified : AllVerified h rh.index 0 plan.sources pieces
  pub checked : DataChecked h rh (flatten pieces)
  pub holds : r.out ≡ out ++ (header ++ flatten pieces)
  pub counts : r.count ≡ length (header ++ flatten pieces) % u64_mod

result_same : {r s : Written} → r ≡ s → r.result ≡ ok tt → s.result ≡ ok tt
result_same e ended = sym (ap (λ (x : Written). x.result) e) ∙ ended

-- What `write_body` has written when it succeeds, behind `out` and the count `n`.
record BodyWritten (h : Hashes) (rh : RemoteHeader) (p : DeltaPlan) (out : Bytes) (n : ℕ)
    (r : Written) : Type 0 where
  pieces : List Bytes
  verified : AllVerified h rh.index 0 p.sources pieces
  checked : DataChecked h rh (flatten pieces)
  holds : r.out ≡ out ++ flatten pieces
  counts : r.count ≡ (n + length (flatten pieces)) % u64_mod

body_written :
    (h : Hashes) (rh : RemoteHeader) (p : DeltaPlan) (out body_out : Bytes) (n count : ℕ)
    (pieces : List Bytes)
    → AllVerified h rh.index 0 p.sources pieces
    → body_out ≡ out ++ flatten pieces
    → count ≡ length (flatten pieces) % u64_mod
    → check_data h rh (drop (length out) body_out) ≡ ok tt
    → BodyWritten h rh p out n (record {
      out = body_out;
      count = (n + count) % u64_mod;
      result = check_data h rh (drop (length out) body_out);
    })
body_written h rh p out body_out n count pieces verified held counted ended =
    let hashed : drop (length out) body_out ≡ flatten pieces =
      ap (drop (length out)) held ∙ drop-append out (flatten pieces) in
    record {
      pieces = pieces;
      verified = verified;
      checked = check_data-eq-ok h rh (flatten pieces) (sym (ap (check_data h rh) hashed) ∙ ended);
      holds = held;
      counts = omega (arith, counted);
    }

write_body-BodyWritten :
    (h : Hashes) (rh : RemoteHeader) (p : DeltaPlan) (remote : RangeReader) (local : ReaderAt)
    (w : Writer) (out : Bytes) (n : ℕ)
    → (write_body h rh p remote local w out n).result ≡ ok tt
    → BodyWritten h rh p out n (write_body h rh p remote local w out n)
unfolding write_body assemble_body
write_body-BodyWritten h rh p remote local w out n ended =
    let results = result_of (offset_range remote rh.body_offset) (remote_runs p) in
    let body = assemble_with h p rh.index local results w out in
    let n' : ℕ = (n + body.count) % u64_mod in
    let (_, assembled, e) = or_return-eq-ok body.out n' body.result _ ended in
    let (pieces, verified, held, counted) =
      assemble_with-Verified h p rh.index local results w out assembled in
    rw e (
      body_written h rh p out body.out n body.count pieces verified held counted
        (result_same e ended))

-- What `write_parts` has written.
record PartsWritten (h : Hashes) (rh : RemoteHeader) (p : DeltaPlan) (out header : Bytes)
    (r : Written) : Type 0 where
  pieces : List Bytes
  verified : AllVerified h rh.index 0 p.sources pieces
  checked : DataChecked h rh (flatten pieces)
  holds : r.out ≡ out ++ (header ++ flatten pieces)
  counts : r.count ≡ length (header ++ flatten pieces) % u64_mod

parts_written :
    (h : Hashes) (rh : RemoteHeader) (p : DeltaPlan) (out header head_out : Bytes) (n : ℕ)
    (r : Written)
    → head_out ≡ out ++ header
    → n ≡ length header % u64_mod
    → BodyWritten h rh p head_out n r
    → PartsWritten h rh p out header r
parts_written h rh p out header head_out n r held counted b = record {
  pieces = b.pieces;
  verified = b.verified;
  checked = b.checked;
  holds =
      b.holds ∙ ap (λ x. x ++ flatten b.pieces) held ∙ append_assoc out header (flatten b.pieces);
  counts = omega (arith, b.counts, counted, length-append header (flatten b.pieces));
}

write_parts-PartsWritten :
    (h : Hashes) (rh : RemoteHeader) (p : DeltaPlan) (remote : RangeReader) (local : ReaderAt)
    (w : Writer) (out header : Bytes)
    → (write_parts h rh p remote local w out header).result ≡ ok tt
    → PartsWritten h rh p out header (write_parts h rh p remote local w out header)
unfolding write_parts
write_parts-PartsWritten h rh p remote local w out header ended =
    let head = write w out header in
    let (_, written, e) =
      or_return-eq-ok head.out head.count (in_context Context.write_header head.result) _ ended in
    let (head_out, head_count) =
      write-eq-ok w out header (Result.in_context-eq-ok Context.write_header head.result written) in
    rw e (
      parts_written h rh p out header head.out head.count _ head_out head_count
        (write_body-BodyWritten h rh p remote local w head.out head.count (result_same e ended)))

-- Whatever the header, the readers and the writer are: if `DownloadDeltaWithHeader` succeeds, it
-- has written the header and one piece for each source of the plan, and returns their total length
-- (an int64). The header is as it was read or, if it was detached, has the embedded magic in place of
-- its first five bytes. Each piece is empty for an empty chunk, or has the length
-- of its source and the digest of the target's chunk; and the pieces together have the data
-- checksum of the preface, unless the file has none or the lead's checksum type is unknown and the
-- body is empty.
pub download_delta_with_header-Downloaded :
    (h : Hashes) (rh : RemoteHeader) (remote : RangeReader) (local_index : Option Index)
    (local : ReaderAt) (w : Writer) (out : Bytes)
    → (download_delta_with_header h rh remote local_index local w out).result ≡ ok tt
    → Downloaded h rh local_index out
        (download_delta_with_header h rh remote local_index local w out)
unfolding download_delta_with_header
download_delta_with_header-Downloaded h rh remote local_index local w out ended =
    let (p, planned, e₁) = or_return-eq-ok out 0 (plan_delta local_index rh.index) _ ended in
    let (header, embedded, e₂) =
      or_return-eq-ok out 0 (embedded_header rh) _ (result_same e₁ ended) in
    let parts =
      write_parts-PartsWritten h rh p remote local w out header
        (result_same e₂ (result_same e₁ ended)) in
    rw (e₁, e₂)
      (record {
        plan = p;
        planned = planned;
        header = header;
        embedded = embedded_header-Embeds rh header embedded;
        pieces = parts.pieces;
        verified = parts.verified;
        checked = parts.checked;
        holds = parts.holds;
        counts = parts.counts;
      })

-- A first write, whose count the code takes as it is.
Accounts-then :
    {out : Bytes} {r w : Written} → Accounts out 0 r → Accounts r.out r.count w → Accounts out 0 w
Accounts-then {out} a b = record {
  added = a.added ++ b.added;
  holds = b.holds ∙ ap (λ o. o ++ b.added) a.holds ∙ append_assoc out a.added b.added;
  counts = omega (arith, a.counts, b.counts, length-append a.added b.added);
}

write_body-Accounts :
    (h : Hashes) (rh : RemoteHeader) (p : DeltaPlan) (remote : RangeReader) (local : ReaderAt)
    (w : Writer) (out : Bytes) (n : ℕ)
    → Accounts out n (write_body h rh p remote local w out n)
unfolding write_body assemble_body
write_body-Accounts h rh p remote local w out n =
    let results = result_of (offset_range remote rh.body_offset) (remote_runs p) in
    let body = assemble_with h p rh.index local results w out in
    let n' : ℕ = (n + body.count) % u64_mod in
    Accounts-trans {r = body} (assemble_with-Accounts h p rh.index local results w out) (
      Accounts-or_return body.out n' body.result _ (omega arith)
        λ _. Accounts-stop body.out n' (check_data h rh (drop (length out) body.out)) (omega arith))

write_parts-Accounts :
    (h : Hashes) (rh : RemoteHeader) (p : DeltaPlan) (remote : RangeReader) (local : ReaderAt)
    (w : Writer) (out header : Bytes)
    → Accounts out 0 (write_parts h rh p remote local w out header)
unfolding write_parts
write_parts-Accounts h rh p remote local w out header =
    let head = write w out header in
    let first = write-Accounts w out header in
    Accounts-then {r = head} first (
      Accounts-or_return head.out head.count (in_context Context.write_header head.result) _
        (omega (arith, first.counts))
        λ _. write_body-Accounts h rh p remote local w head.out head.count)

-- Whatever the range reader, the local reader and the writer are, and on every error: `DownloadDelta`
-- leaves what the writer held in place, and returns the number of bytes that it has added, as an
-- int64.
pub download_delta-Accounts :
    (h : Hashes) (remote : RangeReader) (local_index : Option Index) (local : ReaderAt) (w : Writer)
    (out : Bytes)
    → Accounts out 0 (download_delta h remote local_index local w out)
unfolding download_delta download_delta_with_header
download_delta-Accounts h remote local_index local w out =
    Accounts-or_return out 0 (read_remote_header h remote) _ refl λ rh.
      Accounts-or_return out 0 (plan_delta local_index rh.index) _ refl λ p.
        Accounts-or_return out 0 (embedded_header rh) _ refl
          λ header. write_parts-Accounts h rh p remote local w out header
