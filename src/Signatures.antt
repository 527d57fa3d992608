-- ===== src/Signatures.antt =====
-- internal/zchunk/signatures.go: the signature section, whose count must be zero.
pub mod RoundTrip
use zchunk.Prelude.{ℕ, ◌≡◌, ◌<◌, ◌^◌, refl, [], ◌==◌, arith, ==_iff}
use zchunk.Go.Error.{Context, signatures_not_supported}
use zchunk.Go.Result
use zchunk.Go.Result.{Result, ok, guard}
use zchunk.Go.Reader.{
  Bytes, Reading, Reads, Reads-bind, Reads-last, Reads-skip, Reads-lift, Reads-pure, Reads-reading,
  pure, lift, reading, ◌>>=◌, ◌>>◌,
}
use zchunk.Go.Writer.{Writer, Written, write_built}
use zchunk.CompressedInt.{append_compressed_int, read_compressed_int}

pub record Signatures : Type 0 where
  pub count : ℕ

unfoldable pub read_signatures : Reading Signatures
read_signatures = do
  count ← reading Context.signature_count read_compressed_int
  lift (guard (count == 0) (signatures_not_supported count))
  pure (record { count = count })

-- The bytes that `Signatures.WriteTo` hands to the writer.
unfoldable pub signatures_bytes : Signatures → Result Bytes
signatures_bytes s =
    Result.◌>>◌ (guard (s.count == 0) (signatures_not_supported s.count))
      (ok (append_compressed_int [] s.count))

unfoldable pub write_signatures : Writer → Bytes → Signatures → Written
unfolding signatures_bytes write_built
write_signatures w out s = write_built w out (signatures_bytes s)
