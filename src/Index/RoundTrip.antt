-- ===== src/Index/RoundTrip.antt =====
-- `read_index` reads back what `write_index` wrote.
use zchunk.Prelude.{
  ℕ, ◌<◌, ◌≤◌, ◌≡◌, ◌^◌, ◌∙◌, sym, ap, refl, Bool, List, ◌+◌, [], ◌++◌, length, length-append, inl,
  inr, All, append-nil, append_assoc, ==_iff, arith,
}
use zchunk.Go.Error.{Context}
use zchunk.Go.Result
use zchunk.Go.Result.{Result, ok, max_int}
use zchunk.Go.Reader.{
  Bytes, at_end, Reads, Reads-bind, Reads-skip, Reads-lift, Reads-make, Reads-reading, Reads-last,
  Reads-bytes, read_full-Reads,
}
use zchunk.CompressedInt.{append_compressed_int}
use zchunk.CompressedInt.RoundTrip.{read_compressed_int-append_compressed_int}
use zchunk.Checksum.{size}
use zchunk.Checksum.Digest.{size_total}
use zchunk.Index.{
  Index, IndexEntry, read_all_entries, parse_buffer, parse_index, read_index, append_entries,
  index_bytes,
}
use zchunk.Index.Entries.{
  IsEntry, Fits, entries_layout, read_entries-layout, append_entries-eq-ok, append_lengths,
}

abbrev body_layout : Index → Bytes
body_layout idx =
    append_compressed_int [] idx.chunk_checksum_type
    ++ (append_compressed_int [] (length idx.chunks) ++ entries_layout idx.chunks)

-- What Go's types ask of an index that is written with or without uncompressed digests.
pub record IsIndex (u : Bool) (idx : Index) : Type 0 where
  pub type_fits : idx.chunk_checksum_type < 2 ^ 64
  pub chunks_fit : All (Fits u) idx.chunks
  pub few_chunks : length idx.chunks ≤ max_int

size-pos : (t : ℕ) {n : ℕ} → size t ≡ ok n → 0 < n
size-pos t e = elim (size_total t) [
  | inl (n, known, _, big, _) ↦ omega (arith, Result.ok-injective (sym known ∙ e))
  | inr (unknown, _) ↦ cc
]

read_all_entries-layout :
    (es : List IndexEntry) (u : Bool) (n : ℕ)
    → 0 < n
    → All (IsEntry u n) es
    → read_all_entries u n at_end (entries_layout es) ≡ ok (es, [])
unfolding read_all_entries
read_all_entries-layout es u n pos h =
    read_entries-layout es (length (entries_layout es)) u n [] at_end pos h (omega arith)

parse_index-body_layout :
    (u : Bool) (idx : Index) {n : ℕ}
    → IsIndex u idx
    → size idx.chunk_checksum_type ≡ ok n
    → All (IsEntry u n) idx.chunks
    → parse_index (body_layout idx) u ≡ ok idx
unfolding parse_index parse_buffer
parse_index-body_layout u idx {n} f known es =
    let type_read = read_compressed_int-append_compressed_int idx.chunk_checksum_type f.type_fits in
    let count_read =
      read_compressed_int-append_compressed_int (length idx.chunks) (omega (arith, f.few_chunks)) in
    let count_agrees = (==_iff (length idx.chunks) (length idx.chunks)).1 refl in
    rw (
      type_read.run at_end
          (append_compressed_int [] (length idx.chunks) ++ entries_layout idx.chunks),
      known,
      count_read.run at_end (entries_layout idx.chunks),
      read_all_entries-layout idx.chunks u n (size-pos idx.chunk_checksum_type known) es,
      count_agrees,
    )

pub index_layout : Index → Bytes
index_layout idx = append_compressed_int [] (length (body_layout idx)) ++ body_layout idx

pub index_bytes-layout :
    (u : Bool) (idx : Index) {bs : Bytes}
    → IsIndex u idx
    → index_bytes idx u ≡ ok bs
    → (bs ≡ index_layout idx) × (parse_index (body_layout idx) u ≡ ok idx)
unfolding index_bytes index_layout
index_bytes-layout u idx f e =
    let (n, known, e₁) = Result.>>=-eq-ok (size idx.chunk_checksum_type) _ e in
    let pos = size-pos idx.chunk_checksum_type known in
    let (body, built, e₂) = Result.>>=-eq-ok (append_entries u n 0 _ idx.chunks) _ e₁ in
    let (es, layout) = append_entries-eq-ok idx.chunks u n 0 _ pos f.chunks_fit built in
    let same : body ≡ body_layout idx =
      layout
      ∙ rw (append_lengths [] idx.chunk_checksum_type (length idx.chunks))
          (append_assoc (append_compressed_int [] idx.chunk_checksum_type) _ _) in
    (
      sym (Result.ok-injective e₂) ∙ ap (λ b. append_compressed_int [] (length b) ++ b) same,
      parse_index-body_layout u idx f known es,
    )

-- `ReadIndex` reads back every index that `WriteTo` accepts, and takes exactly its bytes. The
-- numbers must fit Go's types, the index a slice, and without the uncompressed-source flag no entry
-- may hold an uncompressed digest, which `WriteTo` drops.
pub read_index-index_bytes :
    (u : Bool) (idx : Index) (bs : Bytes)
    → IsIndex u idx
    → length bs ≤ max_int
    → index_bytes idx u ≡ ok bs
    → Reads (read_index u) bs idx
unfolding read_index index_layout
read_index-index_bytes u idx bs f few e =
    let (layout, parsed) = index_bytes-layout u idx f e in
    let total : length bs
        ≡ length (append_compressed_int [] (length (body_layout idx))) + length (body_layout idx) =
      ap length layout
      ∙ length-append (append_compressed_int [] (length (body_layout idx))) (body_layout idx) in
    rw layout (
      Reads-bind _
        (Reads-reading Context.index_size
          (read_compressed_int-append_compressed_int (length (body_layout idx)) (omega arith)))
        (Reads-skip _ (Reads-make (length (body_layout idx)) (omega arith)) (
          Reads-bytes (append-nil (body_layout idx)) (
            Reads-bind _ (Reads-reading Context.index_body (read_full-Reads (body_layout idx) refl))
              (Reads-last _ (Reads-lift _ parsed))))))
