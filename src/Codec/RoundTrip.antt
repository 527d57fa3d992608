-- ===== src/Codec/RoundTrip.antt =====
-- What a chunk encoder writes, the decoder of the same dictionary reads back.
use mathlib.Core.Path.{subst}
use zchunk.Prelude.{
  ℕ, Bool-cases, ◌≡◌, ◌⊎◌, ◌∙◌, sym, ap, refl, true, Option, none, some, [], ◌==◌, ==_iff, inl, inr,
  length, arith,
}
use zchunk.Go.Result
use zchunk.Go.Result.{Result, ok, err}
use zchunk.Go.Reader.{Bytes}
use zchunk.Preface.{CompressionType, valid}
use zchunk.Codec.{
  Zstd, no_dict, dict_option, loaded, ChunkEncoder, new_chunk_encoder, compress, compress_chunk,
  ChunkDecoder, new_chunk_decoder, decompress, decompress_chunk, decode_all,
}

-- A decoder that reads back all that an encoder writes.
pub record Inverts (ce : ChunkEncoder) (cd : ChunkDecoder) : Type 0 where
  pub reads_back :
      (src : Bytes) {c : Bytes} → compress ce src ≡ ok c → decompress cd c (length src) ≡ ok src
  pub empty : (src : Bytes) → compress ce src ≡ ok [] → src ≡ []
  pub total : (src : Bytes) → (c : Bytes) × (compress ce src ≡ ok c)

valid_types : (ct : CompressionType) → valid ct ≡ true → (ct ≡ 0) ⊎ (ct ≡ 2)
unfolding valid
valid_types ct h = ground arith

stored-Inverts :
    (z : Zstd) (dict : Bytes) {ce : ChunkEncoder}
    → new_chunk_encoder z 0 dict ≡ ok ce
    → (cd : ChunkDecoder) × (new_chunk_decoder z 0 dict ≡ ok cd) × Inverts ce cd
unfolding new_chunk_encoder new_chunk_decoder compress decompress
stored-Inverts z dict e = (
  record { ct = 0; dec = none },
  refl,
  rw (← Result.ok-injective e) (record {
    reads_back = λ src h. rw (← Result.ok-injective h, (==_iff (length src) (length src)).1 refl);
    empty = λ src h. Result.ok-injective h;
    total = λ src. (src, refl);
  }),
)

module _ (z : Zstd) (dict : Bytes) (enc : Bytes → Bytes)
    (made : z.new_writer (dict_option dict) ≡ some enc) where
  zstd-Inverts :
      (cd : ChunkDecoder) × (new_chunk_decoder z 2 dict ≡ ok cd)
      × Inverts (record { ct = 2; enc = some enc }) cd
  unfolding new_chunk_encoder new_chunk_decoder compress decompress
  zstd-Inverts =
      let (dec, d, back) = z.reader_of_writer (dict_option dict) enc made in
      (
        record { ct = 2; dec = some dec },
        rw d,
        record {
          reads_back = λ src h.
              rw (← Result.ok-injective h, back src, (==_iff (length src) (length src)).1 refl);
          empty = λ src h. z.empty_frame (dict_option dict) enc made src (Result.ok-injective h);
          total = λ src. (enc src, refl);
        },
      )

-- What a successful load of a dictionary has made.
loaded-eq-ok {ℓ κ} :
    {A : Type ℓ} {B : Type κ} (o : Option A) (f : Option A → Result B) {b : B}
    → Result.◌>>=◌ (loaded o) f ≡ ok b
    → (a : A) × (o ≡ some a) × (f (some a) ≡ ok b)
loaded-eq-ok (some a) f h = (a, refl, h)
loaded-eq-ok none f h = cc

zstd_encoder :
    (z : Zstd) (dict : Bytes) {ce : ChunkEncoder}
    → new_chunk_encoder z 2 dict ≡ ok ce
    → (enc : Bytes → Bytes) × (z.new_writer (dict_option dict) ≡ some enc)
      × (record { ct = 2; enc = some enc } ≡ ce)
unfolding new_chunk_encoder
zstd_encoder z dict e =
    let (enc, made, built) = loaded-eq-ok (z.new_writer (dict_option dict)) _ e in
    (enc, made, Result.ok-injective built)

-- For every encoder there is the decoder of the same dictionary, and it inverts the encoder.
pub new_chunk_decoder-Inverts :
    (z : Zstd) (ct : CompressionType) (dict : Bytes) {ce : ChunkEncoder}
    → valid ct ≡ true
    → new_chunk_encoder z ct dict ≡ ok ce
    → (cd : ChunkDecoder) × (new_chunk_decoder z ct dict ≡ ok cd) × Inverts ce cd
new_chunk_decoder-Inverts z ct dict {ce} known e = elim (valid_types ct known) [
  | inl stored ↦ rw stored (stored-Inverts z dict (rw stored at e))
  | inr zstd ↦
      let (enc, made, same) = zstd_encoder z dict (rw zstd at e) in
      let (cd, loads, inverts) = zstd-Inverts z dict enc made in
      rw zstd (cd, loads, subst (λ c. Inverts c cd) same inverts)
]

-- `DecompressChunk` returns the content of every chunk that `CompressChunk` made under the same
-- dictionary and type, if it is told the content's length.
pub decompress_chunk-compress_chunk :
    (z : Zstd) (ct : CompressionType) (dict src : Bytes) {c : Bytes}
    → compress_chunk z ct dict src ≡ ok c
    → decompress_chunk z ct dict c (length src) ≡ ok src
unfolding compress_chunk decompress_chunk
decompress_chunk-compress_chunk z ct dict src e =
    let (known, e₁) = Result.guard-eq-ok (valid ct) _ _ e in
    let (ce, made, e₂) = Result.>>=-eq-ok (new_chunk_encoder z ct dict) _ e₁ in
    let (cd, loads, inverts) = new_chunk_decoder-Inverts z ct dict known made in
    rw (known, loads) (inverts.reads_back src e₂)

-- What `decompress` returns has the declared length, whatever the chunk.
pub decompress-length :
    (cd : ChunkDecoder) (src : Bytes) (n : ℕ) {d : Bytes}
    → decompress cd src n ≡ ok d
    → length d ≡ n
unfolding decompress
decompress-length cd src n e = elim (Bool-cases (cd.ct == 0)) [
  | inl stored ↦
      let (same, e₁) = Result.guard-eq-ok (length src == n) _ _ (rw stored at e) in
      ap length (sym (Result.ok-injective e₁)) ∙ (==_iff (length src) n).0 same
  | inr coded ↦
      let (out, made, e₁) = Result.>>=-eq-ok (decode_all cd.dec src) _ (rw coded at e) in
      let (same, e₂) = Result.guard-eq-ok (length out == n) _ _ e₁ in
      ap length (sym (Result.ok-injective e₂)) ∙ (==_iff (length out) n).0 same
]

-- Without a dictionary no bytes are the empty content.
pub decompress_chunk-nil :
    (z : Zstd) (ct : CompressionType) → valid ct ≡ true → decompress_chunk z ct [] [] 0 ≡ ok []
unfolding decompress_chunk new_chunk_decoder decompress dict_option
decompress_chunk-nil z ct known =
    let (enc, made) = z.writer_no_dict in
    let (dec, loads, _) = z.reader_of_writer no_dict enc made in
    elim (valid_types ct known) [
      | inl stored ↦ rw (known, stored) refl
      | inr zstd ↦ rw (known, zstd) (rw (loads, z.empty_input dec loads) refl)
    ]
