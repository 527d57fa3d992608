-- ===== src/Extract/Checked.antt =====
-- Everything that `extract` writes was verified.
use zchunk.Prelude.{
  ℕ, suc, ◌+◌, ◌%◌, ◌≡◌, ◌∙◌, sym, ap, refl, ◌⊎◌, inl, inr, Option-cases, List, [], ◌∷◌, ◌++◌,
  length, flatten, take, drop, append-nil, append_assoc, take-append_more, arith,
}
use zchunk.Go.Error.{Context}
use zchunk.Go.Result.{Result, ok, err, panic, stuck, guard, in_context, u64_mod}
use zchunk.Go.Reader.{Bytes, Ending}
use zchunk.Go.Writer.{Writer, Written, write}
use zchunk.Checksum.{ChecksumType, Hashes, size}
use zchunk.Preface.{CompressionType, valid}
use zchunk.Index.{IndexEntry, Index}
use zchunk.Codec.{Zstd, ChunkDecoder, new_chunk_decoder}
use zchunk.Extract.{read_chunk, or_return, extract_chunks, extract_all, extract, or_panic}
use zchunk.Extract.Verified.{Agrees, read_chunk-Agrees}

-- The contents of the first of some chunks, verified one by one against their entries and the bytes
-- of the body `s`, one behind the other.
abbrev pub Contents : Hashes → ChecksumType → List IndexEntry → Bytes → List Bytes → Type 0
Contents h t [] s cs = cs ≡ []
Contents h t (e ∷ es) s [] = Unit
Contents h t (e ∷ es) s (c ∷ cs) =
    (comp : Bytes) × (rest : Bytes) × (s ≡ comp ++ rest)
    × (length comp ≡ e.comp_length)
    × (((comp ≡ []) × (c ≡ [])) ⊎ Agrees h t e comp c)
    × Contents h t es rest cs

Contents-nil :
    (h : Hashes) (t : ChecksumType) (es : List IndexEntry) (s : Bytes) → Contents h t es s []
Contents-nil h t [] s = refl
Contents-nil h t (e ∷ es) s = tt

-- What was written behind `out`: a front of these contents, and all of them on a success.
pub record Extracted (h : Hashes) (t : ChecksumType) (es : List IndexEntry) (s out : Bytes)
    (w : Written) : Type 0 where
  pub contents : List Bytes
  pub verified : Contents h t es s contents
  pub count : ℕ
  pub holds : w.out ≡ out ++ take count (flatten contents)
  pub complete :
      w.result ≡ ok tt → (length contents ≡ length es) × (w.out ≡ out ++ flatten contents)

take_both : (a : Bytes) (n : ℕ) (b : Bytes) → take (length a + n) (a ++ b) ≡ a ++ take n b
take_both a n b =
    take-append_more (length a + n) a b (omega arith) ∙ ap (λ m. a ++ take m b) (omega arith)

nothing_written :
    (h : Hashes) (t : ChecksumType) (es : List IndexEntry) (s out : Bytes) (count : ℕ)
    (r : Result (Unit {0}))
    → (r ≡ ok tt → 0 ≡ length es)
    → Extracted h t es s out (record { out = out; count = count; result = r })
nothing_written h t es s out count r done = record {
  contents = [];
  verified = Contents-nil h t es s;
  count = 0;
  holds = sym (append-nil out);
  complete = λ good. (done good, sym (append-nil out));
}

module _ (h : Hashes) (t : ChecksumType) (w : Writer) (dec : ChunkDecoder) (end : Ending) where
  -- The rest of the loop, once a chunk was read.
  written_chunk :
      (e : IndexEntry) (es : List IndexEntry) (i : ℕ) (s out : Bytes) (count : ℕ)
      (p : Bytes × Bytes)
      → read_chunk h t dec e i end s ≡ ok p
      → ((o : Bytes) (c : ℕ)
          → Extracted h t es p.1 o (extract_chunks h t w dec end es (i + 1) p.1 o c))
      → let done = write w out p.0 in
        let count' = (count + done.count) % u64_mod in
        Extracted h t (e ∷ es) s out (
          or_return done.out count'
            (in_context (Context.write_chunk i) done.result)
            λ _. extract_chunks h t w dec end es (i + 1) p.1 done.out count')
  unfolding write
  written_chunk e es i s out count p read rest =
      let (comp, split, long, agrees) = read_chunk-Agrees h t dec e i end s read in
      let here : (cs : List Bytes) → Contents h t es p.1 cs → Contents h t (e ∷ es) s (p.0 ∷ cs) =
        λ cs v. (comp, p.1, split, long, agrees, v) in
      elim (Option-cases (w out p.0)) [
        | inl whole ↦
            let x = rest (out ++ p.0) ((count + length p.0 % u64_mod) % u64_mod) in
            rw (whole, write)
              (record {
                contents = p.0 ∷ x.contents;
                verified = here x.contents x.verified;
                count = length p.0 + x.count;
                holds =
                    x.holds
                    ∙ append_assoc out p.0 (take x.count (flatten x.contents))
                    ∙ ap (λ l. out ++ l) (sym (take_both p.0 x.count (flatten x.contents)));
                complete = λ good.
                    let (all, wrote) = x.complete good in
                    (ap suc all, wrote ∙ append_assoc out p.0 (flatten x.contents));
              })
        | inr (n, part) ↦
            rw (part, write)
              (record {
                contents = p.0 ∷ [];
                verified = here [] (Contents-nil h t es p.1);
                count = n;
                holds = ap (λ l. out ++ take n l) (sym (append-nil p.0));
                complete = λ bad. cc;
              })
      ]

  read_or_stop :
      (e : IndexEntry) (es : List IndexEntry) (i : ℕ) (s out : Bytes) (count : ℕ)
      (r : Result (Bytes × Bytes)) (k : Bytes × Bytes → Written)
      → ((p : Bytes × Bytes) → r ≡ ok p → Extracted h t (e ∷ es) s out (k p))
      → Extracted h t (e ∷ es) s out (or_return out count r k)
  read_or_stop e es i s out count (ok p) k f = f p refl
  read_or_stop e es i s out count (err x) k f =
      nothing_written h t (e ∷ es) s out count (err x) λ bad. cc
  read_or_stop e es i s out count panic k f =
      nothing_written h t (e ∷ es) s out count panic λ bad. cc
  read_or_stop e es i s out count stuck k f =
      nothing_written h t (e ∷ es) s out count stuck λ bad. cc

  extract_chunks-Extracted :
      (es : List IndexEntry) (i : ℕ) (s out : Bytes) (count : ℕ)
      → Extracted h t es s out (extract_chunks h t w dec end es i s out count)
  unfolding extract_chunks
  extract_chunks-Extracted [] i s out count =
      nothing_written h t [] s out count (ok tt) λ good. refl
  extract_chunks-Extracted (e ∷ es) i s out count =
      read_or_stop e es i s out count (read_chunk h t dec e i end s) _ λ p read.
        written_chunk e es i s out count p read λ o c. extract_chunks-Extracted es (i + 1) p.1 o c

-- What a whole file's extraction wrote: chunk 0, the dictionary, is verified and not written.
pub record AllExtracted (h : Hashes) (t : ChecksumType) (es : List IndexEntry) (s out : Bytes)
    (w : Written) : Type 0 where
  pub contents : List Bytes
  pub verified : Contents h t es s contents
  pub count : ℕ
  pub holds : w.out ≡ out ++ take count (flatten (drop 1 contents))
  pub complete :
      w.result ≡ ok tt → (length contents ≡ length es) × (w.out ≡ out ++ flatten (drop 1 contents))

stopped :
    (h : Hashes) (t : ChecksumType) (es : List IndexEntry) (s out : Bytes) (r : Result (Unit {0}))
    → (r ≡ ok tt → 0 ≡ length es)
    → AllExtracted h t es s out (record { out = out; count = 0; result = r })
stopped h t es s out r done = record {
  contents = [];
  verified = Contents-nil h t es s;
  count = 0;
  holds = sym (append-nil out);
  complete = λ good. (done good, sym (append-nil out));
}

-- A step before the first write.
or_stopped {ℓ} :
    {A : Type ℓ} (h : Hashes) (t : ChecksumType) (es : List IndexEntry) (s out : Bytes)
    (r : Result A) (k : A → Written)
    → ((a : A) → r ≡ ok a → AllExtracted h t es s out (k a))
    → AllExtracted h t es s out (or_return out 0 r k)
or_stopped h t es s out (ok a) k f = f a refl
or_stopped h t es s out (err x) k f = stopped h t es s out (err x) λ bad. cc
or_stopped h t es s out panic k f = stopped h t es s out panic λ bad. cc
or_stopped h t es s out stuck k f = stopped h t es s out stuck λ bad. cc

extract_all-AllExtracted :
    (h : Hashes) (z : Zstd) (t : ChecksumType) (ct : CompressionType) (w : Writer) (end : Ending)
    (es : List IndexEntry) (s out : Bytes)
    → AllExtracted h t es s out (extract_all h z t ct w end es s out)
unfolding extract_all
extract_all-AllExtracted h z t ct w end [] s out = stopped h t [] s out (ok tt) λ good. refl
extract_all-AllExtracted h z t ct w end (d ∷ es) s out =
    or_stopped h t (d ∷ es) s out (or_panic (new_chunk_decoder z ct [])) _ λ dict_dec _.
      or_stopped h t (d ∷ es) s out (read_chunk h t dict_dec d 0 end s) _ λ p read.
        or_stopped h t (d ∷ es) s out (new_chunk_decoder z ct p.0) _ λ dec _.
          let (comp, split, long, agrees) = read_chunk-Agrees h t dict_dec d 0 end s read in
          let x = extract_chunks-Extracted h t w dec end es 1 p.1 out 0 in
          record {
            contents = p.0 ∷ x.contents;
            verified = (comp, p.1, split, long, agrees, x.verified);
            count = x.count;
            holds = x.holds;
            complete = λ good. let (all, wrote) = x.complete good in (ap suc all, wrote);
          }

-- Nothing that `Extract` writes is unverified, whatever the index, the body and the writer are, and on
-- every error: behind what the writer held stands a front of the contents of the first data chunks, in
-- order, and all of them on a success. Of each chunk, the dictionary included, its part of the body has
-- the length and the digest of its entry, the content has the entry's length, and its digest is the
-- uncompressed one if the entry has it; only a chunk without bytes, whose content is empty, is not
-- checked.
pub extract-AllExtracted :
    (h : Hashes) (z : Zstd) (idx : Index) (ct : CompressionType) (w : Writer) (end : Ending)
    (s out : Bytes)
    → AllExtracted h idx.chunk_checksum_type idx.chunks s out (extract h z idx ct w end s out)
unfolding extract
extract-AllExtracted h z idx ct w end s out =
    or_stopped h idx.chunk_checksum_type idx.chunks s out (size idx.chunk_checksum_type) _ λ _ _.
      or_stopped h idx.chunk_checksum_type idx.chunks s out (guard (valid ct) _) _
        λ _ _. extract_all-AllExtracted h z idx.chunk_checksum_type ct w end idx.chunks s out
