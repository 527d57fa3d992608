-- ===== src/Cli/Names.antt =====
-- cmd/zchunk/main.go: the names of the compression types and of the checksum types.
use zchunk.Prelude.{ℕ, ◌≡◌, ◌↔◌, true, false, ◌++◌, ◌==◌, if◌then◌else◌, arith}
use zchunk.Go.Error.{unknown_compression_name}
use zchunk.Go.Result.{Result, ok, err}
use zchunk.Go.Reader.{Bytes}
use zchunk.Go.Text.{codes, format_decimal}
use zchunk.Go.Text.Numerals.{format_decimal-injective}
use mathlib.Core.List.{append_cancel_left, append_cancel_right}
use zchunk.Checksum.{ChecksumType, sha1, sha256, sha512, sha512_128}
use zchunk.Lead.{equal}
use zchunk.Lead.RoundTrip.{equal_iff}
use zchunk.Preface.{CompressionType, compression_none, compression_zstd, valid}

unfoldable pub parse_compression : Bytes → Result CompressionType
unfolding equal
parse_compression name =
    if equal name (codes "none")
    then ok compression_none
    else if equal name (codes "zstd")
    then ok compression_zstd
    else err (unknown_compression_name name)

-- `unknown(%d)`
unfoldable pub unknown_name : ℕ → Bytes
unfolding format_decimal
unknown_name n = codes "unknown(" ++ format_decimal n ++ codes ")"

unfoldable pub compression_name : CompressionType → Bytes
unfolding unknown_name
compression_name c =
    if c == compression_none
    then codes "none"
    else if c == compression_zstd
    then codes "zstd"
    else unknown_name c

unfoldable pub checksum_name : ChecksumType → Bytes
unfolding unknown_name
checksum_name t =
    if t == sha1
    then codes "SHA-1"
    else if t == sha256
    then codes "SHA-256"
    else if t == sha512
    then codes "SHA-512"
    else if t == sha512_128
    then codes "SHA-512/128"
    else unknown_name t

-- The names that `parseCompression` accepts are exactly those that `compressionName` gives to the
-- valid types, and it answers with the type.
pub parse_compression_iff :
    (name : Bytes) (c : CompressionType)
    → (parse_compression name ≡ ok c) ↔ ((valid c ≡ true) × (name ≡ compression_name c))
unfolding parse_compression compression_name valid
parse_compression_iff name c =
    ground (arith, equal_iff name (codes "none"), equal_iff name (codes "zstd"))

-- The types without a name of their own are told apart by their number.
unknown_name-injective : (c d : ℕ) → unknown_name c ≡ unknown_name d → c ≡ d
unfolding unknown_name
unknown_name-injective c d h = format_decimal-injective c d (
    append_cancel_right (format_decimal c) (format_decimal d) (codes ")")
      (append_cancel_left (codes "unknown(") _ _ h))

name_of_unknown : (c : CompressionType) → valid c ≡ false → compression_name c ≡ unknown_name c
unfolding compression_name valid
name_of_unknown c h = ground arith

-- Two compression types that `compressionName` names alike are the same, valid or not.
pub compression_name-injective :
    (c d : CompressionType) → compression_name c ≡ compression_name d → c ≡ d
unfolding compression_name unknown_name
compression_name-injective c d h = ground (arith, unknown_name-injective c d)
