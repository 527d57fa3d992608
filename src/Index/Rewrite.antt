-- ===== src/Index/Rewrite.antt =====
-- What `ReadIndex` returned, `WriteTo` writes again.
use zchunk.Prelude.{
  ℕ, ◌+◌, ◌≤◌, ◌++◌, ◌≡◌, ◌∙◌, refl, Bool, true, false, Option, none, some, List, [], ◌∷◌, ==_iff,
  All, length,
}
use zchunk.Go.Result.{guard_goes, ok, max_int}
use zchunk.Go.Reader.{Bytes, Ending, Reads}
use zchunk.CompressedInt.{append_compressed_int}
use zchunk.Index.{IndexEntry, Index, slice, append_entry, append_entries, index_bytes, read_index}
use zchunk.Index.Entries.{HasDigest, IsEntry}
use zchunk.Index.RoundTrip.{read_index-index_bytes}
use zchunk.Index.WellFormed.{IsWellFormed, read_index-IsWellFormed}

HasDigest-length : (n : ℕ) (d : Option Bytes) → HasDigest true n d → length (slice d) ≡ n
HasDigest-length n (some d) h = h
HasDigest-length n none h = absurd h

append_entry_total :
    (u : Bool) (n i : ℕ) (body : Bytes) (e : IndexEntry)
    → IsEntry u n e
    → (b : Bytes) × (append_entry u n i body e ≡ ok b)
unfolding append_entry
append_entry_total true n i body e h =
    let digest = (==_iff (length e.digest) n).1 h.digest_size in
    let uncompressed = (==_iff _ n).1 (HasDigest-length n e.uncompressed_digest h.has_digest) in
    (_, guard_goes _ _ _ digest ∙ guard_goes _ _ _ uncompressed)
append_entry_total false n i body e h =
    let digest = (==_iff (length e.digest) n).1 h.digest_size in (_, guard_goes _ _ _ digest)

append_entries_total :
    (u : Bool) (n i : ℕ) (body : Bytes) (es : List IndexEntry)
    → All (IsEntry u n) es
    → (b : Bytes) × (append_entries u n i body es ≡ ok b)
unfolding append_entries
append_entries_total u n i body [] hs = (body, refl)
append_entries_total u n i body (e ∷ es) (h, hs) =
    let (b, one) = append_entry_total u n i body e h in
    let (last, more) = append_entries_total u n (i + 1) b es hs in (last, rw one more)

index_bytes_total :
    (u : Bool) (idx : Index) → IsWellFormed u idx → (bs : Bytes) × (index_bytes idx u ≡ ok bs)
unfolding index_bytes
index_bytes_total u idx w =
    let (b, made) =
      append_entries_total u w.digest_size 0
        (append_compressed_int (append_compressed_int [] idx.chunk_checksum_type)
          (length idx.chunks))
        idx.chunks w.entries in
    (append_compressed_int [] (length b) ++ b, rw w.known (rw made refl))

-- An index that `ReadIndex` has read from any input, however its integers were coded, `WriteTo` writes
-- for the same flag without an error, and of the bytes that it writes, if they fit a slice,
-- `ReadIndex` returns the same index, whatever follows them.
pub index_bytes-read_index :
    (u : Bool) (end : Ending) (s : Bytes) {idx : Index} {rest : Bytes}
    → read_index u end s ≡ ok (idx, rest)
    → (bs : Bytes) × (index_bytes idx u ≡ ok bs)
      × (length bs ≤ max_int → Reads (read_index u) bs idx)
index_bytes-read_index u end s {idx} e =
    let w = read_index-IsWellFormed u end s e in
    let (bs, made) = index_bytes_total u idx w in
    (bs, made, λ few. read_index-index_bytes u idx bs w.fits few made)
