-- ===== src/Index/Total.antt =====
-- `read_index` on any input, well formed or not.
use zchunk.Prelude.{
  ℕ, zero, suc, ◌<◌, ◌≤◌, ◌≡◌, ◌^◌, ◌≢◌, Bool, true, false, List, none, some, [], ◌∷◌, ◌++◌, ◌==◌,
  inl, inr, length, arith,
}
use zchunk.Go.Result
use zchunk.Go.Result.{Result, ok, err, panic, stuck, max_int}
use zchunk.Go.Reader.{Bytes, Ending, at_end}
use zchunk.Go.Settled.{
  Settled, Settled-less, Settled-ne-stuck, Settles-lift, Settles, Settled-bind, Settles-bind,
  Settles-pure, Settles-reading, Settles-guard, Settles-make, read_full-Settles,
  read_compressed_int-Settles,
}
use zchunk.CompressedInt.{append_compressed_int}
use zchunk.CompressedInt.RoundTrip.{read_compressed_int-append_compressed_int}
use zchunk.Checksum.{size}
use zchunk.Checksum.Digest.{size_total}
use zchunk.Index.{
  IndexEntry, read_uncompressed_digest, read_entry, read_entries, read_all_entries, parse_buffer,
  parse_index, read_index,
}

uncompressed_digest-Settles : (u : Bool) (n i : ℕ) → Settles 0 (read_uncompressed_digest u n i)
unfolding read_uncompressed_digest
uncompressed_digest-Settles false n i = Settles-pure none
uncompressed_digest-Settles true n i =
    Settles-bind _ (Settles-reading _ (read_full-Settles n)) λ d. Settles-pure (some d)

-- An entry takes two bytes at least: its two integers do.
pub read_entry-Settles : (u : Bool) (n i : ℕ) → Settles 2 (read_entry u n i)
unfolding read_entry
read_entry-Settles u n i =
    Settles-bind {k = 0} {l = 2} _ (Settles-reading _ (read_full-Settles n)) λ d.
      Settles-bind {k = 0} {l = 2} _ (uncompressed_digest-Settles u n i) λ d'.
        Settles-bind {k = 1} {l = 1} _ (Settles-reading _ read_compressed_int-Settles) λ c.
          Settles-bind {k = 1} {l = 0} _ (Settles-reading _ read_compressed_int-Settles)
            λ l. Settles-pure _

read_entries-Settled :
    (fuel : ℕ) (u : Bool) (n : ℕ) (acc : List IndexEntry) (end : Ending) (s : Bytes)
    → length s ≤ fuel
    → Settled 0 (length s) (read_entries fuel u n acc end s)
unfolding read_entries
read_entries-Settled zero u n acc end [] enough = omega arith
read_entries-Settled (suc fuel) u n acc end [] enough = omega arith
read_entries-Settled zero u n acc end (b ∷ s) enough = absurd (omega arith)
read_entries-Settled (suc fuel) u n acc end (b ∷ s) enough = Settled-less 2 (length (b ∷ s)) _ (
    Settled-bind 2 0 (length (b ∷ s)) (read_entry u n (length acc) end (b ∷ s)) _
      ((read_entry-Settles u n (length acc)).settled end (b ∷ s))
      λ e rest le. read_entries-Settled fuel u n (acc ++ e ∷ []) end rest (omega arith))

read_all_entries-Settles : (u : Bool) (n : ℕ) → Settles 0 (read_all_entries u n)
unfolding read_all_entries
read_all_entries-Settles u n = record {
  settled = λ end s. read_entries-Settled (length s) u n [] end s (omega arith);
}

size-ne-stuck : (t : ℕ) → size t ≢ stuck
size-ne-stuck t e = elim (size_total t) [ inl (n, known, _, _, _) ↦ cc | inr (unknown, _) ↦ cc ]

parse_buffer-Settles : (u : Bool) → Settles 2 (parse_buffer u)
unfolding parse_buffer
parse_buffer-Settles u =
    Settles-bind {k = 1} {l = 1} _ (Settles-reading _ read_compressed_int-Settles) λ t.
      Settles-bind {k = 0} {l = 1} _ (Settles-lift (size t) (size-ne-stuck t)) λ n.
        Settles-bind {k = 1} {l = 0} _ (Settles-reading _ read_compressed_int-Settles) λ c.
          Settles-bind {k = 0} {l = 0} _ (read_all_entries-Settles u n) λ es.
            Settles-bind {k = 0} {l = 0} _ (Settles-guard (length es == c) _) λ _. Settles-pure _

parse_index-ne-stuck : (buf : Bytes) (u : Bool) → parse_index buf u ≢ stuck
unfolding parse_index
parse_index-ne-stuck buf u =
    Result.map-ne-stuck (parse_buffer u at_end buf) (λ p. p.0)
      (Settled-ne-stuck 2 (length buf) (parse_buffer u at_end buf)
        ((parse_buffer-Settles u).settled at_end buf))

-- `ReadIndex` ends on every input, with an index, an error or a panic: the fuel of its loop is
-- never used up. A success has taken at least a byte.
pub read_index-Settles : (u : Bool) → Settles 1 (read_index u)
unfolding read_index
read_index-Settles u =
    Settles-bind {k = 1} {l = 0} _ (Settles-reading _ read_compressed_int-Settles) λ n.
      Settles-bind {k = 0} {l = 0} _ (Settles-make n) λ _.
        Settles-bind {k = 0} {l = 0} _ (Settles-reading _ (read_full-Settles n)) λ buf.
          Settles-bind {k = 0} {l = 0} _
            (Settles-lift (parse_index buf u) (parse_index-ne-stuck buf u)) λ idx. Settles-pure idx

-- A declared size, a uint64, above the largest `int` makes `ReadIndex` panic, whatever follows
-- it.
pub read_index_panics :
    (u : Bool) (declared : ℕ) (end : Ending) (rest : Bytes)
    → max_int < declared
    → declared < 2 ^ 64
    → read_index u end (append_compressed_int [] declared ++ rest) ≡ panic
unfolding read_index
read_index_panics u declared end rest over fits =
    rw ((read_compressed_int-append_compressed_int declared fits).run end rest) (ground arith)
