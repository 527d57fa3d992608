-- ===== src/Codec.antt =====
-- internal/zchunk/compress.go: chunks coded one by one. The zstd library is a parameter.
pub mod RoundTrip
use zchunk.Prelude.{
  ℕ, ◌≡◌, Bool, true, false, Option, none, some, List, [], ◌∷◌, ◌&&◌, ◌==◌, leb, if◌then◌else◌,
  length, take,
}
use zchunk.Go.Error.{
  Context, unsupported_compression_type, stored_length_mismatch, decompressed_length_mismatch,
  zstd_error,
}
use zchunk.Go.Result.{Result, ok, err, panic, guard, in_context, ◌>>=◌, ◌>>◌}
use zchunk.Go.Reader.{Bytes}
use zchunk.Lead.{equal}
use zchunk.Preface.{CompressionType, compression_none, compression_zstd, valid}

-- The dictionary option of an encoder or a decoder: none, WithEncoderDict / WithDecoderDicts, or
-- WithEncoderDictRaw / WithDecoderDictRaw with the ID 0.
pub data DictOption : Type 0 where
  no_dict : DictOption
  trained raw : Bytes → DictOption

-- github.com/klauspost/compress/zstd. An encoder is what its `EncodeAll` computes, and a decoder what
-- its `DecodeAll` does; building one fails on a malformed dictionary only. A decoder with the options
-- of an encoder reads its frames back, a frame is empty for empty content only, and a decoder without
-- a dictionary makes nothing of no bytes.
pub record Zstd : Type 0 where
  pub new_writer : DictOption → Option (Bytes → Bytes)
  pub new_reader : DictOption → Option (Bytes → Option Bytes)
  pub writer_no_dict : (enc : Bytes → Bytes) × (new_writer no_dict ≡ some enc)
  pub reader_of_writer :
      (d : DictOption) (enc : Bytes → Bytes)
      → new_writer d ≡ some enc
      → (dec : Bytes → Option Bytes) × (new_reader d ≡ some dec)
        × ((b : Bytes) → dec (enc b) ≡ some b)
  pub empty_frame :
      (d : DictOption) (enc : Bytes → Bytes)
      → new_writer d ≡ some enc
      → (b : Bytes) → enc b ≡ []
      → b ≡ []
  pub empty_input : (dec : Bytes → Option Bytes) → new_reader no_dict ≡ some dec → dec [] ≡ some []

-- ZSTD_MAGIC_DICTIONARY, little endian
abbrev pub zstd_dict_magic : Bytes
zstd_dict_magic = 0x37 ∷ 0xA4 ∷ 0x30 ∷ 0xEC ∷ []

unfoldable pub is_structured_dict : Bytes → Bool
is_structured_dict dict =
    leb (length zstd_dict_magic) (length dict)
    && equal (take (length zstd_dict_magic) dict) zstd_dict_magic

-- The option that both constructors append.
unfoldable pub dict_option : Bytes → DictOption
dict_option [] = no_dict
dict_option (b ∷ bs) = if is_structured_dict (b ∷ bs) then trained (b ∷ bs) else raw (b ∷ bs)

-- `NewWriter` and `NewReader`, with the error that is wrapped around theirs.
abbrev pub loaded {ℓ} : {A : Type ℓ} → Option A → Result (Option A)
loaded (some f) = ok (some f)
loaded none = in_context Context.load_dictionary (err zstd_error)

pub record ChunkEncoder : Type 0 where
  pub ct : CompressionType
  pub enc : Option (Bytes → Bytes)

unfoldable pub new_chunk_encoder : Zstd → CompressionType → Bytes → Result ChunkEncoder
new_chunk_encoder z ct dict =
    if ct == compression_zstd
    then (loaded (z.new_writer (dict_option dict)) >>= λ e. ok (record { ct = ct; enc = e }))
    else ok (record { ct = ct; enc = none })

-- `ce.enc.EncodeAll`; a nil encoder would be a nil dereference.
abbrev pub encode_all : Option (Bytes → Bytes) → Bytes → Result Bytes
encode_all (some f) src = ok (f src)
encode_all none src = panic

unfoldable pub compress : ChunkEncoder → Bytes → Result Bytes
compress ce src = if ce.ct == compression_none then ok src else encode_all ce.enc src

unfoldable pub compress_chunk : Zstd → CompressionType → Bytes → Bytes → Result Bytes
compress_chunk z ct dict src = do
  guard (valid ct) (unsupported_compression_type ct)
  ce ← new_chunk_encoder z ct dict
  compress ce src

pub record ChunkDecoder : Type 0 where
  pub ct : CompressionType
  pub dec : Option (Bytes → Option Bytes)

unfoldable pub new_chunk_decoder : Zstd → CompressionType → Bytes → Result ChunkDecoder
new_chunk_decoder z ct dict =
    if ct == compression_zstd
    then (loaded (z.new_reader (dict_option dict)) >>= λ d. ok (record { ct = ct; dec = d }))
    else ok (record { ct = ct; dec = none })

abbrev pub decoded : Option Bytes → Result Bytes
decoded (some b) = ok b
decoded none = in_context Context.zstd_decode (err zstd_error)

-- `cd.dec.DecodeAll`
abbrev pub decode_all : Option (Bytes → Option Bytes) → Bytes → Result Bytes
decode_all (some f) src = decoded (f src)
decode_all none src = panic

-- The destination buffer is reused between calls; each caller is done with its bytes before the next.
unfoldable pub decompress : ChunkDecoder → Bytes → ℕ → Result Bytes
decompress cd src n =
    if cd.ct == compression_none
    then (guard (length src == n) (stored_length_mismatch (length src) n) >> ok src)
    else (decode_all cd.dec src >>= λ out.
        guard (length out == n) (decompressed_length_mismatch (length out) n) >> ok out)

unfoldable pub decompress_chunk : Zstd → CompressionType → Bytes → Bytes → ℕ → Result Bytes
decompress_chunk z ct dict src n = do
  guard (valid ct) (unsupported_compression_type ct)
  cd ← new_chunk_decoder z ct dict
  decompress cd src n
