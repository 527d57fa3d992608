-- ===== src/Builder/Entries.antt =====
-- The entries that a builder makes, and the file that can always be written from them.
use mathlib.Core.Path.{subst}
use zchunk.Prelude.{
  ℕ, suc, ◌+◌, ◌≤◌, ◌<◌, ◌≡◌, ◌^◌, ◌∙◌, sym, ap, refl, false, none, List, [], ◌∷◌, ◌++◌, ==_iff,
  All, length, length-append, length-replicate, arith,
}
use zchunk.Go.Result
use zchunk.Go.Result.{Result, ok, max_int}
use zchunk.Go.Reader.{Bytes}
use zchunk.CompressedInt.{append_compressed_int}
use zchunk.Checksum.{ChecksumType, Hashes, size}
use zchunk.Preface.{CompressionType, valid}
use zchunk.Index.{IndexEntry, Index, append_entry, append_entries, index_bytes}
use zchunk.Index.Entries.{Fits}
use zchunk.Index.RoundTrip.{IsIndex}
use zchunk.Codec.{Zstd, new_chunk_encoder, compress}
use zchunk.File.Layout.{or_nil-sum, known_type-lt}
use zchunk.Builder.{Builder, entry_of, append_chunk, add_dict, new_builder, add_chunk, add_chunks}

-- An entry of a digest of `n` bytes, for at most `k` bytes in the body and `m` bytes of content.
pub record Entry (n k m : ℕ) (e : IndexEntry) : Type 0 where
  pub digest_size : length e.digest ≡ n
  pub no_digest : e.uncompressed_digest ≡ none
  pub comp_within : e.comp_length ≤ k
  pub full_within : e.full_length ≤ m

pub Entries-weaken :
    (n k k' m : ℕ) (es : List IndexEntry) → k ≤ k' → All (Entry n k m) es → All (Entry n k' m) es
Entries-weaken n k k' m [] more h = tt
Entries-weaken n k k' m (e ∷ es) more (h, hs) = (
  record {
    digest_size = h.digest_size;
    no_digest = h.no_digest;
    comp_within = omega (arith, h.comp_within, more);
    full_within = h.full_within;
  },
  Entries-weaken n k k' m es more hs,
)

Entries-concat :
    (n k m : ℕ) (es : List IndexEntry) (e : IndexEntry)
    → All (Entry n k m) es
    → Entry n k m e
    → All (Entry n k m) (es ++ e ∷ [])
Entries-concat n k m [] e hs h = (h, tt)
Entries-concat n k m (x ∷ es) e (g, hs) h = (g, Entries-concat n k m es e hs h)

-- What a builder for chunks of at most `m` bytes, with `count` chunks behind the dictionary, holds.
pub record Filled (t : ChecksumType) (n m count : ℕ) (b : Builder) : Type 0 where
  pub same_type : b.idx.chunk_checksum_type ≡ t
  pub entries : All (Entry n (length b.body) m) b.idx.chunks
  pub counted : length b.idx.chunks ≡ suc count

entry_of-Entry :
    (h : Hashes) (t : ChecksumType) {n : ℕ} (comp : Bytes) (l k m : ℕ)
    → size t ≡ ok n
    → length comp ≤ k
    → l ≤ m
    → Entry n k m (entry_of h t comp l)
entry_of-Entry h t comp l k m known within small = record {
  digest_size = (or_nil-sum h t comp known).1;
  no_digest = refl;
  comp_within = within;
  full_within = small;
}

append_chunk-Filled :
    (h : Hashes) (t : ChecksumType) {n : ℕ} (m count : ℕ) (b : Builder) (comp : Bytes) (l : ℕ)
    → size t ≡ ok n
    → l ≤ m
    → Filled t n m count b
    → Filled t n m (suc count) (append_chunk b (entry_of h b.idx.chunk_checksum_type comp l) comp)
append_chunk-Filled h t {n} m count b comp l known small f =
    let total = length-append b.body comp in
    let e = entry_of h b.idx.chunk_checksum_type comp l in
    record {
      same_type = f.same_type;
      entries =
          Entries-concat n (length (b.body ++ comp)) m b.idx.chunks e
            (Entries-weaken n (length b.body) (length (b.body ++ comp)) m b.idx.chunks
              (omega (arith, total)) f.entries)
            (entry_of-Entry h b.idx.chunk_checksum_type comp l (length (b.body ++ comp)) m
              (ap size f.same_type ∙ known) (omega (arith, total)) small);
      counted = omega (arith, f.counted, length-append b.idx.chunks (e ∷ []));
    }

pub add_chunks-Filled :
    (h : Hashes) (t : ChecksumType) {n : ℕ} (m count : ℕ) (b : Builder) (plains : List Bytes)
    {b' : Builder}
    → size t ≡ ok n
    → All (λ p. length p ≤ m) plains
    → Filled t n m count b
    → add_chunks h b plains ≡ ok b'
    → Filled t n m (count + length plains) b'
unfolding add_chunks add_chunk
add_chunks-Filled h t {n} m count b [] known small f e =
    subst (Filled t n m (count + 0)) (Result.ok-injective e)
      (subst (λ c. Filled t n m c b) (omega arith) f)
add_chunks-Filled h t {n} m count b (plain ∷ plains) {b'} known (s, ss) f e =
    let (one, added, later) = Result.>>=-eq-ok (add_chunk h b plain) _ e in
    let (comp, _, built) = Result.>>=-eq-ok (compress b.enc plain) _ added in
    let f' =
      subst (Filled t n m (suc count)) (Result.ok-injective built)
        (append_chunk-Filled h t m count b comp (length plain) known s f) in
    subst (λ c. Filled t n m c b') (omega arith)
      (add_chunks-Filled h t m (suc count) one plains known ss f' later)

pub new_builder-Filled :
    (h : Hashes) (z : Zstd) (ct : CompressionType) (t : ChecksumType) {n : ℕ} (dict : Bytes) (m : ℕ)
    {b : Builder}
    → size t ≡ ok n
    → length dict ≤ m
    → new_builder h z ct t dict ≡ ok b
    → Filled t n m 0 b
unfolding new_builder add_dict
new_builder-Filled h z ct t {n} [] m known small e =
    let (_, e₁) = Result.guard-eq-ok (valid ct) _ _ e in
    let (n', sized, e₂) = Result.>>=-eq-ok (size t) _ e₁ in
    let (enc, made, e₃) = Result.>>=-eq-ok (new_chunk_encoder z ct []) _ e₂ in
    let same : n' ≡ n = Result.ok-injective (sym sized ∙ known) in
    subst (Filled t n m 0) (Result.ok-injective e₃) (record {
      same_type = refl;
      entries = (
        record {
          digest_size = length-replicate n' 0 ∙ same;
          no_digest = refl;
          comp_within = omega arith;
          full_within = omega arith;
        },
        tt,
      );
      counted = refl;
    })
new_builder-Filled h z ct t {n} (d ∷ ds) m known small e =
    let (_, e₁) = Result.guard-eq-ok (valid ct) _ _ e in
    let (n', sized, e₂) = Result.>>=-eq-ok (size t) _ e₁ in
    let (enc, made, e₃) = Result.>>=-eq-ok (new_chunk_encoder z ct (d ∷ ds)) _ e₂ in
    subst (Filled t n m 0) (Result.ok-injective e₃) (record {
      same_type = refl;
      entries = (entry_of-Entry h t _ (length (d ∷ ds)) _ m known (omega arith) small, tt);
      counted = refl;
    })

-- An index with digests of the right length can be written.
pub append_entries_total :
    (n k m i : ℕ) (body : Bytes) (es : List IndexEntry)
    → All (Entry n k m) es
    → (b : Bytes) × (append_entries false n i body es ≡ ok b)
unfolding append_entries append_entry
append_entries_total n k m i body [] h = (body, refl)
append_entries_total n k m i body (e ∷ es) (h, hs) =
    rw ((==_iff (length e.digest) n).1 h.digest_size) (append_entries_total n k m (i + 1) _ es hs)

pub index_bytes_total :
    (idx : Index) {n : ℕ} (k m : ℕ)
    → size idx.chunk_checksum_type ≡ ok n
    → All (Entry n k m) idx.chunks
    → (b : Bytes) × (index_bytes idx false ≡ ok b)
unfolding index_bytes
index_bytes_total idx {n} k m known h =
    let start : Bytes =
      append_compressed_int (append_compressed_int [] idx.chunk_checksum_type)
        (length idx.chunks) in
    let (b, made) = append_entries_total n k m 0 start idx.chunks h in
    (append_compressed_int [] (length b) ++ b, rw (known, made) refl)

Entries-Fits :
    (n k m : ℕ) (es : List IndexEntry)
    → k < 2 ^ 64
    → m < 2 ^ 64
    → All (Entry n k m) es
    → All (Fits false) es
Entries-Fits n k m [] few small h = tt
Entries-Fits n k m (e ∷ es) few small (h, hs) = (
  record {
    comp_fits = omega (arith, h.comp_within, few);
    full_fits = omega (arith, h.full_within, small);
    no_digest = λ _. h.no_digest;
  },
  Entries-Fits n k m es few small hs,
)

-- What a builder holds is an index that can be read back, if it fits Go's types.
pub Filled-IsIndex :
    (t : ChecksumType) {n : ℕ} (m count : ℕ) (b : Builder)
    → size t ≡ ok n
    → Filled t n m count b
    → length b.body ≤ max_int
    → m ≤ max_int
    → count < max_int
    → IsIndex false b.idx
Filled-IsIndex t {n} m count b known f few small countable = record {
  type_fits = omega (arith, known_type-lt t known, f.same_type);
  chunks_fit = Entries-Fits n (length b.body) m b.idx.chunks (omega arith) (omega arith) f.entries;
  few_chunks = omega (arith, f.counted);
}
