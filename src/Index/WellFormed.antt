-- ===== src/Index/WellFormed.antt =====
-- What `ReadIndex` can return, whatever its input.
use mathlib.Core.Path.{subst}
use zchunk.Prelude.{
  ℕ, zero, suc, ◌+◌, ◌≤◌, ◌≡◌, ◌∙◌, ap, refl, Bool, true, false, none, some, List, [], ◌∷◌, ◌++◌,
  All, ◌==◌, length, length-append, arith,
}
use zchunk.Go.Error.{Context}
use zchunk.Go.Result
use zchunk.Go.Result.{Result, ok, max_int, guard}
use zchunk.Go.Reader.{Bytes, Ending, at_end, lift, reading}
use zchunk.Go.Settled.{Settled, Settles-reading, read_compressed_int-Settles}
use zchunk.Go.Yields.{
  Yields, Yields-pure, Yields-lift, Yields-reading, Yields-bind, Yields-make, read_full-Yields,
  read_compressed_int-Yields,
}
use zchunk.CompressedInt.{read_compressed_int}
use zchunk.Checksum.{size}
use zchunk.Index.{
  IndexEntry, Index, read_uncompressed_digest, read_entry, read_entries, read_all_entries,
  parse_buffer, parse_index, read_index,
}
use zchunk.Index.Entries.{HasDigest, IsEntry, Fits}
use zchunk.Index.RoundTrip.{IsIndex}
use zchunk.Index.Total.{read_entry-Settles}

uncompressed_digest-Yields :
    (u : Bool) (n i : ℕ) → Yields (read_uncompressed_digest u n i) (HasDigest u n)
unfolding read_uncompressed_digest
uncompressed_digest-Yields false n i = Yields-pure none refl
uncompressed_digest-Yields true n i =
    Yields-bind _ (Yields-reading _ (read_full-Yields n)) λ d sized. Yields-pure (some d) sized

read_entry-Yields : (u : Bool) (n i : ℕ) → Yields (read_entry u n i) (IsEntry u n)
unfolding read_entry
read_entry-Yields u n i = Yields-bind _ (Yields-reading _ (read_full-Yields n)) λ d sized.
    Yields-bind _ (uncompressed_digest-Yields u n i) λ d' has.
      Yields-bind _ (Yields-reading _ read_compressed_int-Yields) λ c comp.
        Yields-bind _ (Yields-reading _ read_compressed_int-Yields) λ l full.
          Yields-pure _
            (record { digest_size = sized; has_digest = has; comp_fits = comp; full_fits = full })

All-concat :
    {u : Bool} {n : ℕ} (es : List IndexEntry) {e : IndexEntry}
    → All (IsEntry u n) es
    → IsEntry u n e
    → All (IsEntry u n) (es ++ e ∷ [])
All-concat [] hs h = (h, tt)
All-concat (e ∷ es) (h', hs) h = (h', All-concat es hs h)

-- Entries that were read, at most one for each byte.
record Few (u : Bool) (n k : ℕ) (es : List IndexEntry) : Type 0 where
  pub entries : All (IsEntry u n) es
  pub few : length es ≤ k

-- What a parser that takes at least `k` bytes has left.
left_over :
    (k n : ℕ) {A : Type 0} (r : Result (A × Bytes)) {p : A × Bytes}
    → Settled k n r
    → r ≡ ok p
    → length p.1 + k ≤ n
left_over k n r h e = rw e at h

read_entries-Few :
    (fuel : ℕ) (u : Bool) (n k : ℕ) (acc : List IndexEntry) (end : Ending) (s : Bytes)
    {es : List IndexEntry} {rest : Bytes}
    → All (IsEntry u n) acc
    → length acc + length s ≤ k
    → read_entries fuel u n acc end s ≡ ok (es, rest)
    → Few u n k es
unfolding read_entries
read_entries-Few zero u n k acc end [] hs le e =
    rw (← ap (λ p. p.0) (Result.ok-injective e)) (record { entries = hs; few = omega arith })
read_entries-Few (suc fuel) u n k acc end [] hs le e =
    rw (← ap (λ p. p.0) (Result.ok-injective e)) (record { entries = hs; few = omega arith })
read_entries-Few zero u n k acc end (b ∷ s) hs le e = cc
read_entries-Few (suc fuel) u n k acc end (b ∷ s) hs le e =
    let (p, first, later) = Result.>>=-eq-ok (read_entry u n (length acc) end (b ∷ s)) _ e in
    let is_entry = (read_entry-Yields u n (length acc)).holds end (b ∷ s) first in
    let shorter =
      left_over 2 (length (b ∷ s)) _ ((read_entry-Settles u n (length acc)).settled end (b ∷ s))
        first in
    read_entries-Few fuel u n k (acc ++ p.0 ∷ []) end p.1 (All-concat acc hs is_entry)
      (omega (arith, length-append acc (p.0 ∷ []), shorter, le)) later

IsEntry-Fits : (u : Bool) (n : ℕ) (es : List IndexEntry) → All (IsEntry u n) es → All (Fits u) es
IsEntry-Fits u n [] hs = tt
IsEntry-Fits u n (e ∷ es) (h, hs) = (
  record {
    comp_fits = h.comp_fits;
    full_fits = h.full_fits;
    no_digest = λ off. (rw off at h.has_digest);
  },
  IsEntry-Fits u n es hs,
)

-- An index whose numbers fit Go's types, and whose digests have the size of its checksum type and are
-- those that the flag asks for.
pub record IsWellFormed (u : Bool) (idx : Index) : Type 0 where
  pub digest_size : ℕ
  pub known : size idx.chunk_checksum_type ≡ ok digest_size
  pub entries : All (IsEntry u digest_size) idx.chunks
  pub fits : IsIndex u idx

one_byte : (c : Context) (s : Bytes) → Settled 1 (length s) (reading c read_compressed_int at_end s)
one_byte c s = (Settles-reading c read_compressed_int-Settles).settled at_end s

parse_index-IsWellFormed :
    (buf : Bytes) (u : Bool) {idx : Index}
    → length buf ≤ max_int
    → parse_index buf u ≡ ok idx
    → IsWellFormed u idx
unfolding parse_index parse_buffer read_all_entries
parse_index-IsWellFormed buf u few e =
    let (q, parsed, e₀) = Result.>>=-eq-ok (parse_buffer u at_end buf) _ e in
    let (p₁, read_type, e₁) =
      Result.>>=-eq-ok (reading Context.chunk_checksum_type read_compressed_int at_end buf) _
        parsed in
    let (p₂, sized, e₂) = Result.>>=-eq-ok (lift (size p₁.0) at_end p₁.1) _ e₁ in
    let (n, known, same) = Result.>>=-eq-ok (size p₁.0) _ sized in
    let (p₃, counted, e₃) =
      Result.>>=-eq-ok (reading Context.chunk_count read_compressed_int at_end p₂.1) _ e₂ in
    let (p₄, entries, e₄) =
      Result.>>=-eq-ok (read_entries (length p₃.1) u p₂.0 [] at_end p₃.1) _ e₃ in
    let (p₅, _, e₅) = Result.>>=-eq-ok (lift (guard (length p₄.0 == p₃.0) _) at_end p₄.1) _ e₄ in
    let type_fits = (Yields-reading _ read_compressed_int-Yields).holds at_end buf read_type in
    let less₁ = left_over 1 (length buf) _ (one_byte _ buf) read_type in
    let less₃ = left_over 1 (length p₂.1) _ (one_byte _ p₂.1) counted in
    let same_rest = ap (λ (p : ℕ × Bytes). length p.1) (Result.ok-injective same) in
    let same_size : size p₁.0 ≡ ok p₂.0 =
      known ∙ ap (λ (p : ℕ × Bytes). ok p.0) (Result.ok-injective same) in
    let all =
      read_entries-Few (length p₃.1) u p₂.0 (length p₃.1) [] at_end p₃.1 tt (omega arith) entries in
    let same_index =
      ap (λ (p : Index × Bytes). p.0) (Result.ok-injective e₅) ∙ Result.ok-injective e₀ in
    subst (IsWellFormed u) same_index (record {
      digest_size = p₂.0;
      known = same_size;
      entries = all.entries;
      fits = record {
        type_fits = type_fits;
        chunks_fit = IsEntry-Fits u p₂.0 p₄.0 all.entries;
        few_chunks = omega (arith, all.few, less₁, less₃, same_rest, few);
      };
    })

read_index-Yields : (u : Bool) → Yields (read_index u) (IsWellFormed u)
unfolding read_index
read_index-Yields u = Yields-bind _ (Yields-reading _ read_compressed_int-Yields) λ n _.
    Yields-bind _ (Yields-make n) λ _ fits.
      Yields-bind _ (Yields-reading _ (read_full-Yields n)) λ buf long.
        Yields-bind _
          (Yields-lift (parse_index buf u)
            λ idx. parse_index-IsWellFormed buf u (omega (arith, long, fits)))
          λ idx. Yields-pure idx

-- `ReadIndex` returns nothing but well-formed indexes, whatever it reads: the checksum type and the
-- lengths are uint64s, the entries are no more than a slice can hold, each digest has the size of the
-- checksum type, and an uncompressed digest, of the same size, is there exactly if the flag asks for
-- it.
pub read_index-IsWellFormed :
    (u : Bool) (end : Ending) (s : Bytes) {idx : Index} {rest : Bytes}
    → read_index u end s ≡ ok (idx, rest)
    → IsWellFormed u idx
read_index-IsWellFormed u end s e = (read_index-Yields u).holds end s e
