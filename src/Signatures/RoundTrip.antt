-- ===== src/Signatures/RoundTrip.antt =====
-- `read_signatures` reads back what `write_signatures` wrote.
use zchunk.Prelude.{ℕ, ◌≡◌, ◌<◌, ◌^◌, ◌∙◌, [], ◌++◌, ◌==◌, append-nil, arith, ==_iff}
use zchunk.Go.Error.{Context, signatures_not_supported}
use zchunk.Go.Result
use zchunk.Go.Result.{ok, err}
use zchunk.Go.Reader.{
  Bytes, Reads, Reads-bind, Reads-skip, Reads-pure, Reads-guard, Reads-reading, Reads-bytes, Ending,
}
use zchunk.CompressedInt.{append_compressed_int}
use zchunk.CompressedInt.RoundTrip.{read_compressed_int-append_compressed_int}
use zchunk.Signatures.{Signatures, read_signatures, signatures_bytes}

-- `WriteTo` accepts the empty section alone, and `ReadSignatures` reads it back.
pub read_signatures-signatures_bytes :
    (s : Signatures) (bs : Bytes)
    → signatures_bytes s ≡ ok bs
    → (s.count ≡ 0) × Reads read_signatures bs s
unfolding signatures_bytes read_signatures
read_signatures-signatures_bytes s bs e =
    let (zero_count, e₁) = Result.guard-eq-ok (s.count == 0) _ _ e in
    let none_left : s.count ≡ 0 = (==_iff s.count 0).0 zero_count in
    (
      none_left,
      Reads-bytes (append-nil _ ∙ Result.ok-injective e₁) (
          Reads-bind _
            (Reads-reading Context.signature_count
              (read_compressed_int-append_compressed_int s.count (omega arith)))
            (Reads-skip _ (Reads-guard (s.count == 0) _ zero_count) (Reads-pure s))),
    )

-- A count above zero is refused when it is read, whatever follows it.
pub read_signatures_refuses :
    (count : ℕ) (end : Ending) (rest : Bytes)
    → 0 < count
    → count < 2 ^ 64
    → read_signatures end (append_compressed_int [] count ++ rest)
      ≡ err (signatures_not_supported count)
unfolding read_signatures
read_signatures_refuses count end rest pos fits =
    rw ((read_compressed_int-append_compressed_int count fits).run end rest) (ground arith)
