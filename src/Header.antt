-- ===== src/Header.antt =====
-- internal/zchunk/remote.go: `RemoteHeader`, `parseHeader`, `ReadDetachedHeader` and
-- `ReadRemoteHeader`.
pub mod Detached
pub mod Remote
pub mod WellFormed
use zchunk.Prelude.{
  ℕ, ◌+◌, ◌-◌, ◌*◌, ◌%◌, Bool, true, false, List, [], ◌∷◌, ◌++◌, ◌==◌, length, take,
}
use zchunk.Go.Error.{Context, got_bytes, wrap}
use zchunk.Go.Result.{Result, ok, err, panic, stuck, guard, make, in_context, u64_mod, ◌>>=◌, ◌>>◌}
use zchunk.Go.Reader.{Bytes, at_end, Reading, read_full}
use zchunk.CompressedInt.{append_compressed_int, max_compressed_int_len}
use zchunk.Checksum.{Hashes, size}
use zchunk.Lead.{Lead, magic, read_lead, verify_header}
use zchunk.Preface.{Preface, uncompressed_source, read_preface}
use zchunk.Index.{Index, read_index}
use zchunk.Signatures.{Signatures, read_signatures}

pub record RemoteHeader : Type 0 where
  pub lead : Lead
  pub preface : Preface
  pub index : Index
  pub signatures : Signatures
  pub header_bytes : Bytes
  pub body_offset : ℕ

-- `ReadRange(offset, length)`, with the two int64s as bit patterns.
abbrev pub RangeReader : Type 0
RangeReader = ℕ → ℕ → Result Bytes

-- maxLeadPrefix
abbrev pub max_lead_prefix : ℕ
max_lead_prefix = length magic + 2 * max_compressed_int_len + 64

unfoldable pub parse_header : Hashes → Lead → Bytes → Bytes → Result RemoteHeader
parse_header h lead lead_bytes hdr_body = do
  verify_header h lead hdr_body
  (pre, hr) ← read_preface lead.checksum_type at_end hdr_body
  (idx, hr') ← read_index (uncompressed_source pre) at_end hr
  (sigs, _) ← read_signatures at_end hr'
  ok (record {
    lead = lead;
    preface = pre;
    index = idx;
    signatures = sigs;
    header_bytes = lead_bytes ++ hdr_body;
    body_offset = (length lead_bytes + length hdr_body) % u64_mod;
  })

-- The tee copies the bytes that `ReadLead` took.
unfoldable pub read_detached_header : Hashes → Reading RemoteHeader
read_detached_header h end s = do
  (lead, s') ← read_lead end s
  make lead.header_size
  (hdr_body, s'') ← in_context Context.detached_header (read_full lead.header_size end s')
  rh ← parse_header h lead (take (length s - length s') s) hdr_body
  ok (rh, s'')

-- `size, _ := t.Size()`
abbrev or_zero : Result ℕ → ℕ
or_zero (ok n) = n
or_zero _ = 0

-- The lead's length, as `ReadRemoteHeader` computes it from its fields.
unfoldable pub lead_length : Lead → ℕ
lead_length lead =
    length magic
    + length (append_compressed_int [] lead.checksum_type)
    + length (append_compressed_int [] lead.header_size)
    + or_zero (size lead.checksum_type)

unfoldable pub read_remote_header : Hashes → RangeReader → Result RemoteHeader
unfolding lead_length
read_remote_header h remote = do
  prefix ← in_context Context.fetch_lead (remote 0 max_lead_prefix)
  (lead, _) ← read_lead at_end prefix
  hdr_body ← in_context Context.fetch_header (remote (lead_length lead) lead.header_size)
  guard (length hdr_body == lead.header_size)
      (wrap Context.fetch_header (got_bytes (length hdr_body) lead.header_size))
  parse_header h lead (take (lead_length lead) prefix) hdr_body
