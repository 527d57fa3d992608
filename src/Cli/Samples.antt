-- ===== src/Cli/Samples.antt =====
-- What `collectChunkSamples` finds in a file that this package wrote.
use zchunk.Prelude.{
  ℕ, ◌++◌, ◌+◌, ◌≤◌, ◌≡◌, ◌∙◌, sym, ap, true, List, [], ◌∷◌, length, length-append, append-nil,
  arith,
}
use zchunk.Go.Error.{Context}
use zchunk.Go.Result.{ok, max_int}
use zchunk.Go.Reader.{
  Bytes, at_end, Reads, Reads-bind, Reads-skip, Reads-last, Reads-lift, Reads-make, Reads-reading,
  Reads-pure, Reads-bytes, read_full-Reads,
}
use zchunk.Checksum.{sha256, ChecksumType, Hashes}
use zchunk.Preface.{CompressionType, valid}
use zchunk.Index.{IndexEntry}
use zchunk.Codec.{Zstd, ChunkEncoder, ChunkDecoder, new_chunk_decoder, compress, decompress_chunk}
use zchunk.Codec.RoundTrip.{Inverts, new_chunk_decoder-Inverts}
use zchunk.Builder.{Builder}
use zchunk.Builder.RoundTrip.{Holds}
use zchunk.Extract.RoundTrip.{Codes}
use zchunk.Cli.RoundTrip.{Created, read_headers-Created}
use zchunk.Cli.{collect_chunk_samples, sample_of, samples_from, body_samples}

sample_of-Reads :
    (z : Zstd) (ct : CompressionType) (dict : Bytes) (c : Context) (e : IndexEntry)
    (comp content : Bytes)
    → e.comp_length ≡ length comp
    → length comp ≤ max_int
    → decompress_chunk z ct dict comp e.full_length ≡ ok content
    → Reads (sample_of z ct dict c e) comp content
unfolding sample_of
sample_of-Reads z ct dict c e comp content long few opened =
    Reads-skip _ (Reads-make e.comp_length (omega (arith, long, few))) (
      Reads-bytes (append-nil comp)
        (Reads-bind _ (Reads-reading c (read_full-Reads comp (sym long))) (Reads-lift _ opened)))

module _ (h : Hashes) (z : Zstd) (ct : CompressionType) (t : ChecksumType) (dict : Bytes)
    (ce : ChunkEncoder) (cd : ChunkDecoder) (known : valid ct ≡ true)
    (loads : new_chunk_decoder z ct dict ≡ ok cd) (inverts : Inverts ce cd) where
  opens : (p c : Bytes) → compress ce p ≡ ok c → decompress_chunk z ct dict c (length p) ≡ ok p
  unfolding decompress_chunk
  opens p c made = rw (known, loads) (inverts.reads_back p made)

  samples_from-Reads :
      (es : List IndexEntry) (ps : List Bytes) (b : Bytes) (i : ℕ)
      → length b ≤ max_int
      → Codes h t ce es ps b
      → Reads (samples_from z ct dict i es) b ps
  unfolding samples_from
  samples_from-Reads [] [] b i few e = Reads-bytes (sym e) (Reads-pure [])
  samples_from-Reads [] (q ∷ ps) b i few no_way = absurd no_way
  samples_from-Reads (e ∷ es) [] b i few no_way = absurd no_way
  samples_from-Reads (e ∷ es) (p ∷ ps) b i few (c, back, made, entry, split, later) =
      let lengths = ap length split ∙ length-append c back in
      Reads-bytes (sym split) (
        Reads-bind _
          (sample_of-Reads z ct dict (Context.read_sample i) e c p
            (ap (λ (x : IndexEntry). x.comp_length) entry) (omega (arith, lengths, few))
            (rw entry (opens p c made)))
          (Reads-last _
            (samples_from-Reads es ps back (i + 1) (omega (arith, lengths, few)) later)))

pub body_samples-Holds :
    (h : Hashes) (z : Zstd) (ct : CompressionType) (t : ChecksumType) (dict : Bytes)
    (plains : List Bytes) (b : Builder)
    → valid ct ≡ true
    → length b.body ≤ max_int
    → Holds h z ct t dict plains b
    → Reads (body_samples z ct b.idx.chunks) b.body plains
unfolding body_samples
body_samples-Holds h z ct t dict plains b known few k =
    let (cd, loads, inverts) = new_chunk_decoder-Inverts z ct dict known k.encoder in
    let lengths = ap length k.bytes ∙ length-append k.first_bytes k.other_bytes in
    rw k.chunks (
      Reads-bytes (sym k.bytes) (
        Reads-bind _
          (sample_of-Reads z ct [] Context.read_dictionary k.first k.first_bytes dict k.first_length
            (omega (arith, lengths, few)) k.opens_dict)
          (samples_from-Reads h z ct t dict b.enc cd known loads inverts k.others plains
            k.other_bytes 1 (omega (arith, lengths, few)) k.codes)))

-- The samples of a file that `create` has made are the chunks of its input.
pub collect_chunk_samples-Created :
    (h : Hashes) (z : Zstd) (n : ℕ) (ct : CompressionType) (dict s : Bytes)
    (c : Created h z n ct dict s)
    → length (c.header ++ c.builder.body) ≤ max_int
    → collect_chunk_samples z at_end (c.header ++ c.builder.body) ≡ ok (c.chunks, [])
unfolding collect_chunk_samples
collect_chunk_samples-Created h z n ct dict s c few =
    let total = length-append c.header c.builder.body in
    let r = read_headers-Created h z n ct dict s c few in
    let found =
      body_samples-Holds h z ct sha256 dict c.chunks c.builder c.known (omega (arith, total, few))
        c.holds in
    rw (r.reads.run at_end c.builder.body, r.same_index, r.same_type)
      (ap (λ x. body_samples z ct c.builder.idx.chunks at_end x) (sym (append-nil c.builder.body))
        ∙ found.run at_end [])
