-- ===== src/Download/Built.antt =====
-- Two files that a `Builder` made, the newer of which is downloaded over the older.
use mathlib.Core.Path.{subst}
use zchunk.Prelude.{
  leb, false, length-drop, ℕ, ◌%◌, ◌≤◌, ◌<◌, ◌≡◌, ◌∙◌, sym, ap, refl, inr, none, some, List, [],
  ◌∷◌, ◌++◌, All, le→leb, length, length-append, drop, take-append, drop-append, flatten,
  append_assoc, arith,
}
use zchunk.Go.Result.{ok, max_int, u64_mod}
use zchunk.Go.Reader.{Bytes}
use zchunk.Go.Writer.{buffer}
use zchunk.Checksum.{ChecksumType, Hashes, size, sum}
use zchunk.Preface.{CompressionType, Preface, uncompressed_source}
use zchunk.Index.{IndexEntry}
use zchunk.Index.RoundTrip.{IsIndex}
use zchunk.Codec.{Zstd}
use zchunk.File.{or_nil, file_bytes}
use zchunk.Header.{RangeReader, max_lead_prefix}
use zchunk.Header.Detached.{IsCarrier}
use zchunk.Header.Remote.{Serves}
use zchunk.Builder.{Builder, new_builder, add_chunks}
use zchunk.Builder.Chunks.{
  Coded, AllCoded, chunks_of, Built, add_chunks-Built, new_builder-Built, chunks_of-flatten,
}
use zchunk.Builder.RoundTrip.{new_builder-Holds}
use zchunk.Delta.Plan.{Stands, here, there}
use zchunk.Assemble.Pieces.{Piece}
use zchunk.Assemble.Complete.{Pieces}
use zchunk.Cli.{section}
use zchunk.Download.{download_delta}
use zchunk.Download.Complete.{Reusable, download_delta-file_bytes}

-- The chunk of an entry stands at the entry's offset.
Stands-Coded :
    (h : Hashes) (t : ChecksumType) (P : Bytes → Type 0) (cs : List Bytes) (pre : Bytes)
    {e : IndexEntry} {o : ℕ} {es : List IndexEntry} {off : ℕ}
    → Stands e o es off
    → AllCoded h t es cs
    → All P cs
    → off ≡ length pre
    → length (pre ++ flatten cs) ≤ max_int
    → (c : Bytes) × (rest : Bytes) × P c × Coded h t e c × (drop o (pre ++ flatten cs) ≡ c ++ rest)
unfolding AllCoded
Stands-Coded h t P [] pre (here es at) no_way all place few = absurd no_way
Stands-Coded h t P [] pre (there e' es later) no_way all place few = absurd no_way
Stands-Coded h t P (c ∷ cs) pre (here es at) (one, coded) (p, all) place few = (
  c,
  flatten cs,
  p,
  one,
  ap (λ n. drop n (pre ++ (c ++ flatten cs))) (at ∙ place) ∙ drop-append pre (c ++ flatten cs),
)
Stands-Coded h t P (c ∷ cs) pre {o = o} (there e' es later) (one, coded) (p, all) place few =
    let total = length-append pre (c ++ flatten cs) in
    let parts = length-append c (flatten cs) in
    let assoc = append_assoc pre c (flatten cs) in
    let (d, rest, q, found, split) =
      Stands-Coded h t P cs (pre ++ c) later coded all
        (omega (arith, place, one.long, length-append pre c, total, parts, few))
        (omega (arith, ap length assoc, few)) in
    (d, rest, q, found, ap (drop o) (sym assoc) ∙ split)

section-append :
    (body p rest : Bytes) (o n : ℕ)
    → drop o body ≡ p ++ rest
    → length p ≡ n
    → 0 < n
    → section body o n ≡ (p, none)
unfolding section
section-append body p rest o n e long some_bytes =
    let total = ap length e ∙ length-append p rest in
    let inside : leb (length body) o ≡ false =
      ground (arith, total, length-drop o body, long, some_bytes) in
    let enough = le→leb (length p) (length (p ++ rest)) (omega (arith, length-append p rest)) in
    rw (inside, e, ← long, take-append, enough) refl

-- No chunk of `olds` has the digest of a chunk of `news`, unless they are equal.
abbrev pub NoCollision : Hashes → ChecksumType → List Bytes → List Bytes → Type 0
NoCollision h t olds news =
    All (λ p. All (λ c. or_nil (sum h t c) ≡ or_nil (sum h t p) → c ≡ p) olds) news

Coded-Piece :
    (h : Hashes) (t : ChecksumType) (es : List IndexEntry) (cs : List Bytes) (e : IndexEntry)
    (p : Bytes)
    → AllCoded h t es cs
    → length (flatten cs) ≤ max_int
    → All (λ c. or_nil (sum h t c) ≡ or_nil (sum h t p) → c ≡ p) cs
    → Coded h t e p
    → Piece h t (section (flatten cs)) es e p
Coded-Piece h t es cs e p all few distinct one = record {
  whole = one.long;
  digest = one.digest;
  copies = λ some_bytes o m.
      let (c, rest, same_if, found, split) =
        Stands-Coded h t _ cs [] m.stands all distinct refl few in
      let same : c ≡ p =
        same_if (found.digest m.nonempty ∙ m.same_digest ∙ sym (one.digest some_bytes)) in
      section-append (flatten cs) p rest o e.comp_length (split ∙ ap (λ x. x ++ rest) same) one.long
        some_bytes;
}

AllCoded-Pieces :
    (h : Hashes) (t : ChecksumType) (es : List IndexEntry) (cs : List Bytes) (ts : List IndexEntry)
    (ps : List Bytes)
    → AllCoded h t es cs
    → length (flatten cs) ≤ max_int
    → NoCollision h t cs ps
    → AllCoded h t ts ps
    → Pieces h t (section (flatten cs)) es ts ps
unfolding AllCoded
AllCoded-Pieces h t es cs [] [] all few distinct one = tt
AllCoded-Pieces h t es cs (e ∷ ts) (p ∷ ps) all few (d, ds) (one, more) =
    (Coded-Piece h t es cs e p all few d one, AllCoded-Pieces h t es cs ts ps all few ds more)
AllCoded-Pieces h t es cs [] (p ∷ ps) all few distinct no_way = absurd no_way
AllCoded-Pieces h t es cs (e ∷ ts) [] all few distinct no_way = absurd no_way

Built-Reusable :
    (h : Hashes) (t : ChecksumType) {n : ℕ} (old new : Builder)
    → size t ≡ ok n
    → (k : Built h t old) → (l : Built h t new) → length old.body ≤ max_int
    → NoCollision h t k.chunks l.chunks
    → Reusable h (some old.idx) (section old.body) new.idx new.body
Built-Reusable h t {n} old new known k l few distinct = record {
  digest_size = n;
  known = ap size l.same_type ∙ known;
  agree = inr (k.same_type ∙ sym l.same_type);
  chunks = l.chunks;
  pieces =
      subst
        (λ b.
          Pieces h new.idx.chunk_checksum_type (section b) old.idx.chunks new.idx.chunks l.chunks)
        (sym k.whole)
        (subst (λ x. Pieces h x (section (flatten k.chunks)) old.idx.chunks new.idx.chunks l.chunks)
          (sym l.same_type)
          (AllCoded-Pieces h t old.idx.chunks k.chunks new.idx.chunks l.chunks k.coded
            (omega (arith, ap length k.whole, few)) distinct l.coded));
  whole = l.whole;
}

-- `DownloadDelta`, on a writer that never fails and with the index and the body of an old file, whose
-- body fits a slice, reproduces a new file: if `NewBuilder` and `AddChunk` made both, under one
-- chunk checksum type, and no chunk of the old body has the digest of a different chunk of the new
-- body. The new file must have at least 89 bytes and fit a slice, its fields must fit Go's types,
-- and the reader must give every non-empty range of it.
pub download_delta-add_chunks :
    (h : Hashes) (z z' : Zstd) (ct ct' : CompressionType) (t t' : ChecksumType) (dict dict' : Bytes)
    (plains plains' : List Bytes) (old₀ old new₀ new : Builder) (pre : Preface) (file : Bytes)
    (remote : RangeReader) (out : Bytes)
    → new_builder h z ct t dict ≡ ok old₀
    → add_chunks h old₀ plains ≡ ok old
    → new_builder h z' ct' t dict' ≡ ok new₀
    → add_chunks h new₀ plains' ≡ ok new
    → length old.body ≤ max_int
    → NoCollision h t (chunks_of old.idx.chunks old.body) (chunks_of new.idx.chunks new.body)
    → file_bytes h t' pre new.idx none new.body ≡ ok file
    → IsCarrier pre
    → IsIndex (uncompressed_source pre) new.idx
    → max_lead_prefix ≤ length file
    → length file ≤ max_int
    → Serves remote file
    → download_delta h remote (some old.idx) (section old.body) buffer out
      ≡ record { out = out ++ file; count = length file % u64_mod; result = ok tt }
download_delta-add_chunks h z z' ct ct' t t' dict dict' plains plains' old₀ old new₀ new pre file
      remote out old_started old_added new_started new_added few distinct made c fits long few_file
      serves =
    let k =
      add_chunks-Built h t old₀ plains (new_builder-Built h z ct t dict old_started) old_added in
    let l =
      add_chunks-Built h t new₀ plains' (new_builder-Built h z' ct' t dict' new_started)
        new_added in
    let olds : chunks_of old.idx.chunks old.body ≡ k.chunks =
      ap (chunks_of old.idx.chunks) k.whole
      ∙ chunks_of-flatten h t old.idx.chunks k.chunks k.coded in
    let news : chunks_of new.idx.chunks new.body ≡ l.chunks =
      ap (chunks_of new.idx.chunks) l.whole
      ∙ chunks_of-flatten h t new.idx.chunks l.chunks l.coded in
    let apart : NoCollision h t k.chunks l.chunks =
      subst (λ x. NoCollision h t x l.chunks) olds
        (subst (NoCollision h t (chunks_of old.idx.chunks old.body)) news distinct) in
    let (_, (n, known), _) = new_builder-Holds h z ct t dict old_started in
    download_delta-file_bytes h t' pre new.idx none new.body file remote (some old.idx)
      (section old.body) out made c fits long few_file serves
      (Built-Reusable h t old new known k l few apart)
