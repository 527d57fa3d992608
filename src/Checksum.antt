-- ===== src/Checksum.antt =====
-- internal/zchunk/zchunk.go (`ChecksumType`, `Size`) and internal/zchunk/checksum.go (`newHash`,
-- `Sum`). A checksum type is any uint64; the hash functions are the standard library's.
pub mod Digest
use zchunk.Prelude.{
  ℕ, ◌≡◌, refl, Bool, true, false, List, ◌==◌, if◌then◌else◌, length, take, arith, ◌||◌,
}
use zchunk.Go.Error.{Error, unknown_checksum_type}
use zchunk.Go.Result.{Result, ok, err, panic, stuck, ◌>>=◌}
use zchunk.Go.Reader.{Bytes}

abbrev pub ChecksumType : Type 0
ChecksumType = ℕ

abbrev pub sha1 : ChecksumType
sha1 = 0

abbrev pub sha256 : ChecksumType
sha256 = 1

abbrev pub sha512 : ChecksumType
sha512 = 2

abbrev pub sha512_128 : ChecksumType
sha512_128 = 3

-- The digests of crypto/sha1, crypto/sha256 and crypto/sha512, with their documented lengths. A
-- streaming hasher answers the digest of all that was written to it.
pub record Hashes : Type 0 where
  pub sum1 : Bytes → Bytes
  pub sum256 : Bytes → Bytes
  pub sum512 : Bytes → Bytes
  pub length-sum1 : (d : Bytes) → length (sum1 d) ≡ 20
  pub length-sum256 : (d : Bytes) → length (sum256 d) ≡ 32
  pub length-sum512 : (d : Bytes) → length (sum512 d) ≡ 64

unfoldable pub size : ChecksumType → Result ℕ
size t =
    if t == sha1
    then ok 20
    else if t == sha256
    then ok 32
    else if t == sha512
    then ok 64
    else if t == sha512_128
    then ok 16
    else err (unknown_checksum_type t)

-- A fresh hasher, as the function from what is written to it to its whole digest.
unfoldable pub new_hash : Hashes → ChecksumType → Result (Bytes → Bytes)
new_hash h t =
    if t == sha1
    then ok h.sum1
    else if t == sha256
    then ok h.sum256
    else if t == sha512 || t == sha512_128
    then ok h.sum512
    else err (unknown_checksum_type t)

-- `h, _ := t.newHash()`: a nil hasher would be a nil dereference.
abbrev unchecked : Result (Bytes → Bytes) → Result (Bytes → Bytes)
unchecked (ok f) = ok f
unchecked _ = panic

-- `h.Sum(nil)[:size]`
unfoldable pub sum : Hashes → ChecksumType → Bytes → Result Bytes
sum h t d = do n ← size t; f ← unchecked (new_hash h t); ok (take n (f d))
