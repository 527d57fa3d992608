-- ===== src/Builder/RoundTrip.antt =====
-- A builder's index and body, and what `extract` makes of them.
use mathlib.Core.Path.{subst}
use zchunk.Prelude.{
  ℕ, ◌%◌, ◌≤◌, ◌≡◌, ◌∙◌, sym, ap, refl, true, none, some, List, [], ◌∷◌, ◌++◌, ◌==◌, Bool-cases,
  inl, inr, length, length-append, flatten, append-nil, append_assoc, replicate, arith,
}
use zchunk.Go.Result
use zchunk.Go.Result.{Result, ok, max_int, u64_mod}
use zchunk.Go.Reader.{Bytes, Ending, Reads, read_full-Reads}
use zchunk.Go.Writer.{buffer}
use zchunk.Checksum.{ChecksumType, Hashes, size}
use zchunk.Preface.{CompressionType, valid}
use zchunk.Index.{IndexEntry}
use zchunk.Codec.{
  Zstd, ChunkEncoder, ChunkDecoder, dict_option, new_chunk_encoder, new_chunk_decoder, compress,
  compress_chunk, decompress_chunk,
}
use zchunk.Codec.RoundTrip.{
  new_chunk_decoder-Inverts, decompress_chunk-nil, decompress_chunk-compress_chunk,
}
use zchunk.Builder.{Builder, entry_of, append_chunk, add_dict, new_builder, add_chunk, add_chunks}
use zchunk.Extract.{read_chunk, extract_all, extract}
use zchunk.Extract.RoundTrip.{
  written-eq, Codes, Codes-concat, read_chunk-compress, extract_chunks-Codes,
}

-- Chunk 0 and the data chunks of a builder: `dict` is the dictionary, `plains` the data so far.
pub record Holds (h : Hashes) (z : Zstd) (ct : CompressionType) (t : ChecksumType) (dict : Bytes)
    (plains : List Bytes) (b : Builder) : Type 0 where
  pub same_type : b.idx.chunk_checksum_type ≡ t
  pub encoder : new_chunk_encoder z ct dict ≡ ok b.enc
  pub first : IndexEntry
  pub first_bytes : Bytes
  pub others : List IndexEntry
  pub other_bytes : Bytes
  pub chunks : b.idx.chunks ≡ first ∷ others
  pub bytes : b.body ≡ first_bytes ++ other_bytes
  pub first_length : first.comp_length ≡ length first_bytes
  pub opens_dict : decompress_chunk z ct [] first_bytes first.full_length ≡ ok dict
  pub reads_dict :
      length first_bytes ≤ max_int
      → (cd : ChunkDecoder) × (new_chunk_decoder z ct [] ≡ ok cd)
        × Reads (read_chunk h t cd first 0) first_bytes dict
  pub codes : Codes h t b.enc others plains other_bytes

-- Without a dictionary an encoder is always made.
encoder_no_dict :
    (z : Zstd) (ct : CompressionType) → (ce : ChunkEncoder) × (new_chunk_encoder z ct [] ≡ ok ce)
unfolding new_chunk_encoder dict_option
encoder_no_dict z ct = elim (Bool-cases (ct == 2)) [
  | inl zstd ↦
      let (enc, made) = z.writer_no_dict in
      (record { ct = ct; enc = some enc }, rw zstd (rw made refl))
  | inr stored ↦ (record { ct = ct; enc = none }, rw stored)
]

add_chunk-Holds :
    (h : Hashes) (z : Zstd) (ct : CompressionType) (t : ChecksumType) (dict : Bytes)
    (plains : List Bytes) (b : Builder) (plain : Bytes) {b' : Builder}
    → Holds h z ct t dict plains b
    → add_chunk h b plain ≡ ok b'
    → Holds h z ct t dict (plains ++ plain ∷ []) b'
unfolding add_chunk
add_chunk-Holds h z ct t dict plains b plain k e =
    let (comp, made, built) = Result.>>=-eq-ok (compress b.enc plain) _ e in
    rw (← Result.ok-injective built) (record {
      same_type = k.same_type;
      encoder = k.encoder;
      first = k.first;
      first_bytes = k.first_bytes;
      others = k.others ++ entry_of h t comp (length plain) ∷ [];
      other_bytes = k.other_bytes ++ comp;
      chunks = rw (k.chunks, k.same_type);
      bytes = rw k.bytes (append_assoc k.first_bytes k.other_bytes comp);
      first_length = k.first_length;
      opens_dict = k.opens_dict;
      reads_dict = k.reads_dict;
      codes = Codes-concat h t b.enc k.others plains k.other_bytes plain comp k.codes made;
    })

-- `AddChunk` cannot fail.
pub add_chunks-Holds :
    (h : Hashes) (z : Zstd) (ct : CompressionType) (t : ChecksumType) (dict : Bytes)
    (more plains : List Bytes) (b : Builder)
    → valid ct ≡ true
    → Holds h z ct t dict plains b
    → (b' : Builder) × (add_chunks h b more ≡ ok b') × Holds h z ct t dict (plains ++ more) b'
unfolding add_chunks
add_chunks-Holds h z ct t dict [] plains b known k = (b, refl, rw append-nil k)
add_chunks-Holds h z ct t dict (plain ∷ more) plains b known k =
    let (cd, _, inverts) = new_chunk_decoder-Inverts z ct dict known k.encoder in
    let (comp, made) = inverts.total plain in
    let one : Builder =
      append_chunk b (entry_of h b.idx.chunk_checksum_type comp (length plain)) comp in
    let added : add_chunk h b plain ≡ ok one = unfold add_chunk in rw made in
    let (b', rest, holds) =
      add_chunks-Holds h z ct t dict more (plains ++ plain ∷ []) one known
        (add_chunk-Holds h z ct t dict plains b plain k added) in
    (b', rw added rest, rw append_assoc at holds)

-- Chunk 0, for a file with and without a dictionary.
add_dict-Holds :
    (h : Hashes) (z : Zstd) (ct : CompressionType) (t : ChecksumType) (n : ℕ) (dict : Bytes)
    (enc : ChunkEncoder)
    → valid ct ≡ true
    → new_chunk_encoder z ct dict ≡ ok enc
    → Holds h z ct t dict [] (
        add_dict h z ct n
          (record { enc = enc; idx = record { chunk_checksum_type = t; chunks = [] }; body = [] })
          dict)
unfolding add_dict
add_dict-Holds h z ct t n [] enc known made = record {
  same_type = refl;
  encoder = made;
  first = record {
    digest = replicate n 0;
    uncompressed_digest = none;
    comp_length = 0;
    full_length = 0;
  };
  first_bytes = [];
  others = [];
  other_bytes = [];
  chunks = refl;
  bytes = refl;
  first_length = refl;
  opens_dict = decompress_chunk-nil z ct known;
  reads_dict = λ few.
      let (ce, encodes) = encoder_no_dict z ct in
      let (cd, loads, _) = new_chunk_decoder-Inverts z ct [] known encodes in
      (cd, loads, empty_chunk cd);
  codes = refl;
}
  where
    empty_chunk :
        (cd : ChunkDecoder)
        → Reads
            (read_chunk h t cd
              (record {
                digest = replicate n 0;
                uncompressed_digest = none;
                comp_length = 0;
                full_length = 0;
              })
              0)
            []
            []
    empty_chunk cd =
        unfold read_chunk in
        record { run = λ end rest. rw ((read_full-Reads [] refl).run end rest) }
add_dict-Holds h z ct t n (d ∷ ds) enc known made =
    let (ce, encodes) = encoder_no_dict z ct in
    let (cd, loads, inverts) = new_chunk_decoder-Inverts z ct [] known encodes in
    let (comp, coded) = inverts.total (d ∷ ds) in
    let compressed : compress_chunk z ct [] (d ∷ ds) ≡ ok comp =
      unfold compress_chunk in rw (known, encodes) coded in
    rw compressed (record {
      same_type = refl;
      encoder = made;
      first = entry_of h t comp (length (d ∷ ds));
      first_bytes = comp;
      others = [];
      other_bytes = [];
      chunks = refl;
      bytes = sym (append-nil comp);
      first_length = refl;
      opens_dict = decompress_chunk-compress_chunk z ct [] (d ∷ ds) compressed;
      reads_dict =
          λ few. (cd, loads, read_chunk-compress h t ce cd inverts (d ∷ ds) comp 0 coded few);
      codes = refl;
    })

pub new_builder-Holds :
    (h : Hashes) (z : Zstd) (ct : CompressionType) (t : ChecksumType) (dict : Bytes) {b : Builder}
    → new_builder h z ct t dict ≡ ok b
    → (valid ct ≡ true) × ((n : ℕ) × (size t ≡ ok n)) × Holds h z ct t dict [] b
unfolding new_builder
new_builder-Holds h z ct t dict e =
    let (known, e₁) = Result.guard-eq-ok (valid ct) _ _ e in
    let (n, sized, e₂) = Result.>>=-eq-ok (size t) _ e₁ in
    let (enc, made, e₃) = Result.>>=-eq-ok (new_chunk_encoder z ct dict) _ e₂ in
    (
      known,
      (n, sized),
      subst (λ b. Holds h z ct t dict [] b) (Result.ok-injective e₃)
          (add_dict-Holds h z ct t n dict enc known made),
    )

-- Behind a `NewBuilder` that succeeds, `AddChunk` succeeds on every list of chunks.
pub add_chunks_total :
    (h : Hashes) (z : Zstd) (ct : CompressionType) (t : ChecksumType) (dict : Bytes)
    (plains : List Bytes) {b₀ : Builder}
    → new_builder h z ct t dict ≡ ok b₀
    → (b : Builder) × (add_chunks h b₀ plains ≡ ok b)
add_chunks_total h z ct t dict plains {b₀} e =
    let (known, _, k) = new_builder-Holds h z ct t dict e in
    let (b, added, _) = add_chunks-Holds h z ct t dict plains [] b₀ known k in (b, added)

extract_all-Holds :
    (h : Hashes) (z : Zstd) (ct : CompressionType) (t : ChecksumType) (dict : Bytes)
    (plains : List Bytes) (b : Builder) (end : Ending) (rest out : Bytes)
    → valid ct ≡ true
    → length b.body ≤ max_int
    → Holds h z ct t dict plains b
    → extract_all h z t ct buffer end b.idx.chunks (b.body ++ rest) out ≡ record {
      out = out ++ flatten plains;
      count = length (flatten plains) % u64_mod;
      result = ok tt;
    }
unfolding extract_all
extract_all-Holds h z ct t dict plains b end rest out known few k =
    let lengths = ap length k.bytes ∙ length-append k.first_bytes k.other_bytes in
    let (dict_dec, dict_loads, dict_reads) = k.reads_dict (omega arith) in
    let (cd, loads, inverts) = new_chunk_decoder-Inverts z ct dict known k.encoder in
    let data_read =
      extract_chunks-Codes h t b.enc cd inverts k.others plains k.other_bytes 1 end rest out 0 refl
        (omega arith) k.codes in
    rw (k.chunks, k.bytes)
      (rw append_assoc (
        rw (dict_loads, dict_reads.run end (k.other_bytes ++ rest), loads)
          (data_read ∙ written-eq (ok tt) refl (omega arith))))

-- A file's content is built and extracted: of the index and the body that a successful
-- `NewBuilder` and `AddChunk` make of a dictionary and a list of chunks, `Extract`, on a writer
-- that never fails, writes exactly the chunks, in order, whatever follows the body, and returns
-- their total length as an int64, if the body fits a slice.
pub extract-add_chunks :
    (h : Hashes) (z : Zstd) (ct : CompressionType) (t : ChecksumType) (dict : Bytes)
    (plains : List Bytes) (b₀ b : Builder) (end : Ending) (rest out : Bytes)
    → new_builder h z ct t dict ≡ ok b₀
    → add_chunks h b₀ plains ≡ ok b
    → length b.body ≤ max_int
    → extract h z b.idx ct buffer end (b.body ++ rest) out ≡ record {
      out = out ++ flatten plains;
      count = length (flatten plains) % u64_mod;
      result = ok tt;
    }
unfolding extract
extract-add_chunks h z ct t dict plains b₀ b end rest out e added few =
    let (known, (n, sized), k₀) = new_builder-Holds h z ct t dict e in
    let (b', added', k') = add_chunks-Holds h z ct t dict plains [] b₀ known k₀ in
    let k =
      subst (λ x. Holds h z ct t dict plains x) (Result.ok-injective (sym added' ∙ added)) k' in
    rw (k.same_type, sized, known)
      (extract_all-Holds h z ct t dict plains b end rest out known few k)
