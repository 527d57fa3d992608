-- ===== src/Header/WellFormed.antt =====
-- What `ReadDetachedHeader` and `ReadRemoteHeader` can return, whatever they are given.
use mathlib.Core.Path.{subst}
use zchunk.Prelude.{
  ◌+◌, ◌-◌, ◌%◌, ◌≡◌, ◌∙◌, sym, ap, refl, [], ◌==◌, ==_iff, ◌++◌, length, length-append,
  length-take, take, drop, take-append, take-append-drop, arith,
}
use zchunk.Go.Error.{Context}
use zchunk.Go.Result
use zchunk.Go.Result.{Result, ok, guard, make, in_context, u64_mod}
use zchunk.Go.Reader.{Bytes, Ending, at_end, read_full}
use zchunk.Go.Yields.{guard-true_of, read_full-Yields}
use zchunk.CompressedInt.{append_compressed_int}
use zchunk.Checksum.{Hashes, sum}
use zchunk.Lead.{Lead, magic, lead_no_digest, read_lead, verify_header}
use zchunk.Lead.RoundTrip.{equal_iff, append_two, magic_of, length-magic_of, lead_layout}
use zchunk.Lead.Rewrite.{IsLead, read_lead-IsLead, read_lead-Spends, read_lead-Splits}
use zchunk.Preface.{uncompressed_source, read_preface}
use zchunk.Preface.Rewrite.{IsRead, read_preface-IsRead}
use zchunk.Index.{read_index}
use zchunk.Index.WellFormed.{IsWellFormed, read_index-IsWellFormed}
use zchunk.Signatures.{read_signatures}
use zchunk.Header.{
  RemoteHeader, RangeReader, max_lead_prefix, lead_length, parse_header, read_detached_header,
  read_remote_header,
}

-- The bytes of a lead: those that `ReadLead` has read it from, or the first of these, as many as the
-- shortest coding of the lead has.
pub data LeadBytes (lead : Lead) (bytes : Bytes) : Type 0 where
  taken :
      (end : Ending) (more : Bytes)
      → read_lead end (bytes ++ more) ≡ ok (lead, more)
      → LeadBytes lead bytes
  cut_off :
      (more left : Bytes)
      → read_lead at_end (bytes ++ more) ≡ ok (lead, left)
      → length bytes ≡ length (lead_layout lead)
      → LeadBytes lead bytes

-- What the checksum of a header is taken of: the lead without it, in the shortest coding and with the
-- embedded magic, and the body of the header.
abbrev pub digested : Lead → Bytes → Bytes
digested lead body =
    magic
    ++ (append_compressed_int [] lead.checksum_type
        ++ (append_compressed_int [] lead.header_size ++ body))

-- The lead, the preface and the index are well formed, each for what stands in front of it; the header
-- consists of the bytes of the lead and of a body that has the size and the checksum that the lead
-- states.
pub record IsHeader (h : Hashes) (rh : RemoteHeader) : Type 0 where
  pub lead_bytes : Bytes
  pub body : Bytes
  pub found : LeadBytes rh.lead lead_bytes
  pub splits : rh.header_bytes ≡ lead_bytes ++ body
  pub offset : rh.body_offset ≡ (length lead_bytes + length body) % u64_mod
  pub sized : length body ≡ rh.lead.header_size
  pub verified : sum h rh.lead.checksum_type (digested rh.lead body) ≡ ok rh.lead.header_checksum
  pub lead : IsLead rh.lead
  pub preface : IsRead rh.lead.checksum_type rh.preface
  pub index : IsWellFormed (uncompressed_source rh.preface) rh.index

verify_header-digested :
    (h : Hashes) (lead : Lead) (body : Bytes)
    → verify_header h lead body ≡ ok tt
    → sum h lead.checksum_type (digested lead body) ≡ ok lead.header_checksum
unfolding verify_header
verify_header-digested h lead body e =
    let (digest, summed, checked) =
      Result.>>=-eq-ok
        (sum h lead.checksum_type (lead_no_digest lead.checksum_type lead.header_size ++ body)) _
        e in
    let same : digest ≡ lead.header_checksum =
      (equal_iff digest lead.header_checksum).0 (guard-true_of _ _ checked) in
    ap (sum h lead.checksum_type) (sym (append_two magic lead.checksum_type lead.header_size body))
    ∙ summed
    ∙ ap ok same

parse_header-IsHeader :
    (h : Hashes) (lead : Lead) (prefix body : Bytes) {rh : RemoteHeader}
    → IsLead lead
    → LeadBytes lead prefix
    → length body ≡ lead.header_size
    → parse_header h lead prefix body ≡ ok rh
    → IsHeader h rh
unfolding parse_header
parse_header-IsHeader h lead prefix body is_lead found sized e =
    let (_, verified, e₁) = Result.>>=-eq-ok (verify_header h lead body) _ e in
    let (p, read_pre, e₂) = Result.>>=-eq-ok (read_preface lead.checksum_type at_end body) _ e₁ in
    let (q, read_idx, e₃) =
      Result.>>=-eq-ok (read_index (uncompressed_source p.0) at_end p.1) _ e₂ in
    let (_, _, e₄) = Result.>>=-eq-ok (read_signatures at_end q.1) _ e₃ in
    subst (IsHeader h) (Result.ok-injective e₄) (record {
      lead_bytes = prefix;
      body = body;
      found = found;
      splits = refl;
      offset = refl;
      sized = sized;
      verified = verify_header-digested h lead body verified;
      lead = is_lead;
      preface = (read_preface-IsRead lead.checksum_type).holds at_end body read_pre;
      index = read_index-IsWellFormed (uncompressed_source p.0) at_end p.1 read_idx;
    })

-- What the tee has copied when `ReadLead` returns.
read_lead-taken :
    (end : Ending) (s : Bytes) {lead : Lead} {rest : Bytes}
    → read_lead end s ≡ ok (lead, rest)
    → LeadBytes lead (take (length s - length rest) s)
read_lead-taken end s {lead} {rest} e =
    let (used, whole) = read_lead-Splits.split end s e in
    let count : length s - length rest ≡ length used =
      omega (arith, ap length whole, length-append used rest) in
    let front : take (length s - length rest) s ≡ used =
      ap (λ n. take n s) count ∙ ap (take (length used)) whole ∙ take-append used rest in
    subst (LeadBytes lead) (sym front) (taken end rest (ap (read_lead end) (sym whole) ∙ e))

lead_length-layout : (lead : Lead) → IsLead lead → lead_length lead ≡ length (lead_layout lead)
unfolding lead_length
lead_length-layout lead is_lead =
    let ty = append_compressed_int [] lead.checksum_type in
    let hs = append_compressed_int [] lead.header_size in
    rw is_lead.digest_size (
      omega (
        arith,
        length-magic_of lead.detached,
        length-append (magic_of lead.detached) (ty ++ (hs ++ lead.header_checksum)),
        length-append ty (hs ++ lead.header_checksum),
        length-append hs lead.header_checksum,
      ))

-- What `ReadRemoteHeader` takes for the bytes of the lead.
read_lead-cut_off :
    (prefix : Bytes) {lead : Lead} {rest : Bytes}
    → read_lead at_end prefix ≡ ok (lead, rest)
    → LeadBytes lead (take (lead_length lead) prefix)
read_lead-cut_off prefix {lead} {rest} e =
    let n = lead_length lead in
    let spent = read_lead-Spends.run at_end prefix (length prefix) (omega arith) e in
    let layout = lead_length-layout lead (read_lead-IsLead.holds at_end prefix e) in
    cut_off (drop n prefix) rest (ap (read_lead at_end) (take-append-drop n prefix) ∙ e)
      (omega (arith, length-take n prefix, layout, spent.left, spent.holds))

read_detached_header-IsHeader :
    (h : Hashes) (end : Ending) (s : Bytes) {rh : RemoteHeader} {rest : Bytes}
    → read_detached_header h end s ≡ ok (rh, rest)
    → IsHeader h rh
unfolding read_detached_header
read_detached_header-IsHeader h end s e =
    let (p, read_l, e₁) = Result.>>=-eq-ok (read_lead end s) _ e in
    let (_, _, e₂) = Result.>>=-eq-ok (make p.0.header_size) _ e₁ in
    let (q, read_b, e₃) =
      Result.>>=-eq-ok (in_context Context.detached_header (read_full p.0.header_size end p.1)) _
        e₂ in
    let (r, parsed, e₄) = Result.>>=-eq-ok (parse_header h p.0 _ q.0) _ e₃ in
    let sized =
      (read_full-Yields p.0.header_size).holds end p.1 (Result.in_context-eq-ok _ _ read_b) in
    subst (IsHeader h) (ap (λ x. x.0) (Result.ok-injective e₄)) (
      parse_header-IsHeader h p.0 _ q.0 (read_lead-IsLead.holds end s read_l)
        (read_lead-taken end s read_l) sized parsed)

read_remote_header-IsHeader :
    (h : Hashes) (remote : RangeReader) {rh : RemoteHeader}
    → read_remote_header h remote ≡ ok rh
    → IsHeader h rh
unfolding read_remote_header
read_remote_header-IsHeader h remote e =
    let (prefix, _, e₁) =
      Result.>>=-eq-ok (in_context Context.fetch_lead (remote 0 max_lead_prefix)) _ e in
    let (p, read_l, e₂) = Result.>>=-eq-ok (read_lead at_end prefix) _ e₁ in
    let (body, _, e₃) =
      Result.>>=-eq-ok (in_context Context.fetch_header (remote (lead_length p.0) p.0.header_size))
        _ e₂ in
    let (same, parsed) = Result.guard-eq-ok (length body == p.0.header_size) _ _ e₃ in
    parse_header-IsHeader h p.0 _ body (read_lead-IsLead.holds at_end prefix read_l)
      (read_lead-cut_off prefix read_l) ((==_iff _ _).0 same) parsed

-- What one of the two has returned.
pub data Returned (h : Hashes) (rh : RemoteHeader) : Type 0 where
  from_remote : (remote : RangeReader) → read_remote_header h remote ≡ ok rh → Returned h rh
  from_reader :
      (end : Ending) (s rest : Bytes) → read_detached_header h end s ≡ ok (rh, rest) → Returned h rh

-- A header that `ReadRemoteHeader` returns, whatever the remote answers, or that `ReadDetachedHeader`
-- returns, whatever it reads, has a well-formed lead, preface and index, each read as what stands in
-- front of it says. It is made of the bytes of the lead, which `ReadLead` has read it from, or the first
-- of these, as many as the shortest coding of the lead has, and a body of the size that the lead states.
-- The lead's checksum is the digest of the embedded magic, the lead's checksum type and header size in
-- the shortest coding, and the body. Behind the header, as a uint64, the body of the file begins.
pub Returned-IsHeader : (h : Hashes) (rh : RemoteHeader) → Returned h rh → IsHeader h rh
Returned-IsHeader h rh (from_remote remote e) = read_remote_header-IsHeader h remote e
Returned-IsHeader h rh (from_reader end s rest e) = read_detached_header-IsHeader h end s e
