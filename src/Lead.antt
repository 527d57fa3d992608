-- ===== src/Lead.antt =====
-- internal/zchunk/lead.go: `Lead`, `ReadLead`, `VerifyHeader` and `WriteTo`.
pub mod RoundTrip
pub mod Rewrite
use zchunk.Prelude.{
  ℕ, ◌≡◌, refl, Bool, true, false, List, [], ◌∷◌, ◌++◌, ◌==◌, if◌then◌else◌, length, ◌&&◌,
}
use zchunk.Go.Error.{
  Error, Context, lead_id, checksum_type, header_size, header_checksum, bad_lead_magic,
  header_checksum_length, header_checksum_mismatch,
}
use zchunk.Go.Result
use zchunk.Go.Result.{Result, ok, err, guard}
use zchunk.Go.Reader.{Bytes, Reading, pure, lift, reading, ◌>>=◌, ◌>>◌, read_full}
use zchunk.Go.Writer.{Writer, Written, write_built}
use zchunk.CompressedInt.{append_compressed_int, read_compressed_int}
use zchunk.Checksum.{ChecksumType, Hashes, size, sum}

-- "\x00ZCK1" and "\x00ZHR1"
abbrev pub magic : Bytes
magic = 0 ∷ b'Z' ∷ b'C' ∷ b'K' ∷ b'1' ∷ []

abbrev pub detached_magic : Bytes
detached_magic = 0 ∷ b'Z' ∷ b'H' ∷ b'R' ∷ b'1' ∷ []

pub record Lead : Type 0 where
  pub detached : Bool
  pub checksum_type : ChecksumType
  pub header_size : ℕ
  pub header_checksum : Bytes

-- `bytes.Equal`, and `==` of strings
unfoldable pub equal : Bytes → Bytes → Bool
equal [] [] = true
equal (x ∷ xs) (y ∷ ys) = x == y && equal xs ys
equal _ _ = false

-- `switch string(id)`
unfoldable pub detached_of : Bytes → Result Bool
unfolding equal
detached_of id =
    if equal id magic
    then ok false
    else if equal id detached_magic
    then ok true
    else err (bad_lead_magic id)

unfoldable pub read_lead : Reading Lead
read_lead = do
  id ← reading lead_id (read_full (length magic))
  detached ← lift (detached_of id)
  raw_type ← reading Context.checksum_type read_compressed_int
  digest_size ← lift (size raw_type)
  hs ← reading Context.header_size read_compressed_int
  digest ← reading Context.header_checksum (read_full digest_size)
  pure (record {
    detached = detached;
    checksum_type = raw_type;
    header_size = hs;
    header_checksum = digest;
  })

-- The lead without its digest, always with the embedded magic.
abbrev pub lead_no_digest : ChecksumType → ℕ → Bytes
lead_no_digest t n = append_compressed_int (append_compressed_int magic t) n

unfoldable pub verify_header : Hashes → Lead → Bytes → Result (Unit {0})
verify_header h l header_body =
    Result.◌>>=◌
      (sum h l.checksum_type (lead_no_digest l.checksum_type l.header_size ++ header_body))
      λ digest. guard (equal digest l.header_checksum) header_checksum_mismatch

-- The bytes that `Lead.WriteTo` hands to the writer.
unfoldable pub lead_bytes : Lead → Result Bytes
lead_bytes l = Result.◌>>=◌ (size l.checksum_type) λ n.
    Result.◌>>◌
      (guard (length l.header_checksum == n)
        (header_checksum_length (length l.header_checksum) n l.checksum_type))
      (ok (
        append_compressed_int
          (append_compressed_int (if l.detached then detached_magic else magic) l.checksum_type)
          l.header_size
        ++ l.header_checksum))

unfoldable pub write_lead : Writer → Bytes → Lead → Written
unfolding lead_bytes write_built
write_lead w out l = write_built w out (lead_bytes l)
