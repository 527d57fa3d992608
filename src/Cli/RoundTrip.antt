-- ===== src/Cli/RoundTrip.antt =====
-- `create` and `extract`, one after the other.
use zchunk.Prelude.{
  ℕ, suc, ◌+◌, ◌%◌, ◌≤◌, ◌<◌, ◌≡◌, ◌∙◌, sym, ap, refl, true, none, List, [], ◌∷◌, ◌++◌, All, length,
  length-append, flatten, append-nil, arith,
}
use zchunk.Go.Result.{ok, max_int, u64_mod}
use zchunk.Go.Reader.{Bytes, at_end}
use zchunk.Go.Writer.{write_built, write, buffer}
use zchunk.CompressedInt.{append_compressed_int}
use zchunk.Checksum.{Hashes, size, sha256}
use zchunk.Lead.{magic}
use zchunk.Preface.{
  CompressionType, Preface, valid, uncompressed_source, preface_bytes, has_flag, unknown_bits,
}
use zchunk.Index.{Index}
use zchunk.Signatures.{signatures_bytes}
use zchunk.Codec.{Zstd}
use zchunk.File
use zchunk.File.{
  or_no_signatures, with_data_checksum, header_body, assemble, build_header, file_bytes,
}
use zchunk.Builder.{Builder, new_builder, add_chunks, write_file}
use zchunk.Builder.RoundTrip.{Holds, add_chunks-Holds, extract-add_chunks, new_builder-Holds}
use zchunk.Builder.Entries.{
  Entry, Filled, new_builder-Filled, add_chunks-Filled, index_bytes_total, Filled-IsIndex,
}
use zchunk.Extract
use zchunk.Cli.{plain_preface, create, extract}
use zchunk.Cli.Sections.{ReadBack, read_headers-build_header}
use zchunk.Cli.Chunking.{Fixed, add_file-Cut}

-- A preface without flags and elements can be written.
preface_bytes_total :
    (d : Bytes) (ct : CompressionType)
    → valid ct ≡ true
    → preface_bytes (record (plain_preface ct) { data_checksum = d })
      ≡ ok (append_compressed_int (append_compressed_int d 0) ct)
unfolding preface_bytes has_flag unknown_bits
preface_bytes_total d ct known = rw known refl

-- A header without flags, elements and signatures can be written for every such index.
build_header_total :
    (h : Hashes) (ct : CompressionType) (idx : Index) (body : Bytes) (k m : ℕ)
    → valid ct ≡ true
    → size idx.chunk_checksum_type ≡ ok 32
    → All (Entry 32 k m) idx.chunks
    → (header : Bytes) × (build_header h magic sha256 (plain_preface ct) idx none body ≡ ok header)
unfolding build_header header_body with_data_checksum or_no_signatures signatures_bytes size
    uncompressed_source has_flag
build_header_total h ct idx body k m known sized entries =
    let (index, made) = index_bytes_total idx k m sized entries in
    let p : Preface = with_data_checksum h sha256 32 (plain_preface ct) body in
    let pre : Bytes = append_compressed_int (append_compressed_int p.data_checksum 0) ct in
    let written : preface_bytes p ≡ ok pre = preface_bytes_total p.data_checksum ct known in
    let hdr : Bytes = (pre ++ index) ++ append_compressed_int [] 0 in
    (assemble h magic sha256 hdr, rw (written, made) refl)

-- Chunks that make up `s` are no longer than `s`.
chunks_within : (cs : List Bytes) (m : ℕ) → length (flatten cs) ≤ m → All (λ c. length c ≤ m) cs
chunks_within [] m within = tt
chunks_within (c ∷ cs) m within =
    let total = length-append c (flatten cs) in
    (omega (arith, total, within), chunks_within cs m (omega (arith, total, within)))

-- What `create` makes of an input: the chunks, the builder that took them, and the file.
pub record Created (h : Hashes) (z : Zstd) (n : ℕ) (ct : CompressionType) (dict s : Bytes)
    : Type 0 where
  pub chunks : List Bytes
  pub first : Builder
  pub builder : Builder
  pub header : Bytes
  pub known : valid ct ≡ true
  pub started : new_builder h z ct sha256 dict ≡ ok first
  pub added : add_chunks h first chunks ≡ ok builder
  pub holds : Holds h z ct sha256 dict chunks builder
  pub fixed : Fixed n chunks
  pub whole : flatten chunks ≡ s
  pub count : ℕ
  pub countable : count < max_int
  pub made :
      build_header h magic sha256 (plain_preface ct) builder.idx none builder.body ≡ ok header
  pub filled : Filled sha256 32 max_int count builder
  pub writes :
      (out : Bytes)
      → create h z n ct dict buffer out at_end s ≡ record {
        out = out ++ (header ++ builder.body);
        count = length (header ++ builder.body) % u64_mod;
        result = ok tt;
      }

pub create-Created :
    (h : Hashes) (z : Zstd) (n : ℕ) (ct : CompressionType) (dict s : Bytes) {b₀ : Builder}
    → new_builder h z ct sha256 dict ≡ ok b₀
    → 0 < n
    → length s < max_int
    → length dict ≤ max_int
    → Created h z n ct dict s
unfolding create write_file File.write_file file_bytes write_built write
create-Created h z n ct dict s {b₀} started positive few_in few_dict =
    let (known, _, holds₀) = new_builder-Holds h z ct sha256 dict started in
    let c = add_file-Cut h n at_end (suc (length s)) s positive (omega arith) in
    let (b, added, holds) = add_chunks-Holds h z ct sha256 dict c.chunks [] b₀ known holds₀ in
    let sized : size sha256 ≡ ok 32 = unfold size in refl in
    let within = chunks_within c.chunks max_int (omega (arith, ap length c.whole, few_in)) in
    let filled =
      add_chunks-Filled h sha256 max_int 0 b₀ c.chunks sized within
        (new_builder-Filled h z ct sha256 dict max_int sized few_dict started) added in
    let (header, made) =
      build_header_total h ct b.idx b.body (length b.body) max_int known
        (ap size filled.same_type ∙ sized) filled.entries in
    record {
      chunks = c.chunks;
      first = b₀;
      builder = b;
      header = header;
      known = known;
      started = started;
      added = added;
      holds = holds;
      fixed = c.fixed;
      whole = c.whole;
      count = 0 + length c.chunks;
      countable = omega (arith, c.few, few_in);
      made = made;
      filled = filled;
      writes = λ out. rw (started, c.adds b₀, added, made) refl;
    }

-- Where the file fits a slice, its sections are read back.
pub read_headers-Created :
    (h : Hashes) (z : Zstd) (n : ℕ) (ct : CompressionType) (dict s : Bytes)
    (c : Created h z n ct dict s)
    → length (c.header ++ c.builder.body) ≤ max_int
    → ReadBack h sha256 (plain_preface ct) c.builder.idx c.builder.body c.header
unfolding uncompressed_source has_flag
read_headers-Created h z n ct dict s c few =
    let total = length-append c.header c.builder.body in
    let sized : size sha256 ≡ ok 32 = unfold size in refl in
    let fits =
      Filled-IsIndex sha256 max_int c.count c.builder sized c.filled (omega (arith, total, few))
        (omega arith) c.countable in
    read_headers-build_header h sha256 (plain_preface ct) c.builder.idx none c.builder.body c.header
      (record { few_elements = omega arith; elements = tt }) fits (omega (arith, total, few)) c.made

pub extract-Created :
    (h : Hashes) (z : Zstd) (n : ℕ) (ct : CompressionType) (dict s out : Bytes)
    (c : Created h z n ct dict s)
    → length (c.header ++ c.builder.body) ≤ max_int
    → extract h z buffer at_end (c.header ++ c.builder.body) out ≡ record {
      out = out ++ flatten c.chunks;
      count = length (flatten c.chunks) % u64_mod;
      result = ok tt;
    }
unfolding extract
extract-Created h z n ct dict s out c few =
    let total = length-append c.header c.builder.body in
    let r = read_headers-Created h z n ct dict s c few in
    let content =
      extract-add_chunks h z ct sha256 dict c.chunks c.first c.builder at_end [] out c.started
        c.added (omega (arith, total, few)) in
    rw (r.reads.run at_end c.builder.body, r.same_index, r.same_type)
      (ap (λ x. Extract.extract h z c.builder.idx ct buffer at_end x out)
          (sym (append-nil c.builder.body))
        ∙ content)

-- `create` cuts an input that ends with io.EOF into chunks of `n` bytes, the last of which may be
-- shorter, and writes a file, if `NewBuilder` succeeds with the dictionary, `n` is positive, the
-- dictionary fits a slice and the input is shorter than the largest slice; and of this file, if it
-- fits a slice, `extract` writes exactly the input. The two writers never fail, and what they held
-- before stays in front.
pub extract-create :
    (h : Hashes) (z : Zstd) (n : ℕ) (ct : CompressionType) (dict s out out' : Bytes) {b₀ : Builder}
    → new_builder h z ct sha256 dict ≡ ok b₀
    → 0 < n
    → length s < max_int
    → length dict ≤ max_int
    → (chunks : List Bytes) × (file : Bytes) × Fixed n chunks
      × (flatten chunks ≡ s)
      × (create h z n ct dict buffer out at_end s
          ≡ record { out = out ++ file; count = length file % u64_mod; result = ok tt })
      × (length file ≤ max_int
          → extract h z buffer at_end file out'
            ≡ record { out = out' ++ s; count = length s % u64_mod; result = ok tt })
extract-create h z n ct dict s out out' started positive few_in few_dict =
    let c = create-Created h z n ct dict s started positive few_in few_dict in
    (
      c.chunks,
      c.header ++ c.builder.body,
      c.fixed,
      c.whole,
      c.writes out,
      λ few.
          extract-Created h z n ct dict s out' c few
          ∙ ap (λ x. record { out = out' ++ x; count = length x % u64_mod; result = ok tt })
              c.whole,
    )
