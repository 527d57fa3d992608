-- ===== src/Extract/Account.antt =====
-- What `extract` reports as written is what the writer got, on every path.
use zchunk.Prelude.{
  ℕ, ◌+◌, ◌%◌, ◌≡◌, ◌∙◌, sym, ap, refl, List, [], ◌∷◌, ◌++◌, Option-cases, length, length-append,
  take, append-nil, append_assoc, inl, inr, arith,
}
use zchunk.Go.Error.{Context}
use zchunk.Go.Result.{Result, ok, err, panic, stuck, guard, in_context, u64_mod}
use zchunk.Go.Reader.{Bytes, Ending}
use zchunk.Go.Writer.{Writer, Written, write}
use zchunk.Checksum.{ChecksumType, Hashes, size}
use zchunk.Preface.{CompressionType, valid}
use zchunk.Index.{IndexEntry, Index}
use zchunk.Codec.{Zstd, ChunkDecoder, new_chunk_decoder}
use zchunk.Extract.{read_chunk, or_return, extract_chunks, extract_all, extract, or_panic}

-- Behind `out` the writer holds `added`, whose length is the count (an int64).
pub record Accounts (out : Bytes) (count : ℕ) (w : Written) : Type 0 where
  pub added : Bytes
  pub holds : w.out ≡ out ++ added
  pub counts : w.count ≡ (count + length added) % u64_mod

pub Accounts-stop :
    (out : Bytes) (count : ℕ) (r : Result (Unit {0}))
    → count ≡ count % u64_mod
    → Accounts out count (record { out = out; count = count; result = r })
Accounts-stop out count r fits = record {
  added = [];
  holds = sym (append-nil out);
  counts = omega arith;
}

pub Accounts-or_return {ℓ} :
    {A : Type ℓ} (out : Bytes) (count : ℕ) (r : Result A) (k : A → Written)
    → count ≡ count % u64_mod
    → ((a : A) → Accounts out count (k a))
    → Accounts out count (or_return out count r k)
Accounts-or_return out count (ok a) k fits h = h a
Accounts-or_return out count (err e) k fits h = Accounts-stop out count (err e) fits
Accounts-or_return out count panic k fits h = Accounts-stop out count panic fits
Accounts-or_return out count stuck k fits h = Accounts-stop out count stuck fits

-- One write, and what is written behind it.
pub write-Accounts : (w : Writer) (out p : Bytes) → Accounts out 0 (write w out p)
unfolding write
write-Accounts w out p = elim (Option-cases (w out p)) [
  | inl whole ↦ rw (whole, write) (record { added = p; holds = refl; counts = omega arith })
  | inr (n, part) ↦
      rw (part, write) (record { added = take n p; holds = refl; counts = omega arith })
]

pub Accounts-trans :
    {out : Bytes} {count : ℕ} {r w : Written}
    → Accounts out 0 r
    → Accounts r.out ((count + r.count) % u64_mod) w
    → Accounts out count w
Accounts-trans {out} {count} {r} {w} a b = record {
  added = a.added ++ b.added;
  holds = b.holds ∙ ap (λ o. o ++ b.added) a.holds ∙ append_assoc out a.added b.added;
  counts = omega (arith, a.counts, b.counts, length-append a.added b.added);
}

extract_chunks-Accounts :
    (h : Hashes) (t : ChecksumType) (w : Writer) (dec : ChunkDecoder) (end : Ending)
    (es : List IndexEntry) (i : ℕ) (s out : Bytes) (count : ℕ)
    → count ≡ count % u64_mod
    → Accounts out count (extract_chunks h t w dec end es i s out count)
unfolding extract_chunks
extract_chunks-Accounts h t w dec end [] i s out count fits = Accounts-stop out count (ok tt) fits
extract_chunks-Accounts h t w dec end (e ∷ es) i s out count fits =
    Accounts-or_return out count (read_chunk h t dec e i end s) _ fits λ p.
      let done = write w out p.0 in
      let count' : ℕ = (count + done.count) % u64_mod in
      Accounts-trans {r = done} (write-Accounts w out p.0) (
        Accounts-or_return done.out count' (in_context (Context.write_chunk i) done.result) _
          (omega arith)
          λ _. extract_chunks-Accounts h t w dec end es (i + 1) p.1 done.out count' (omega arith))

-- Whatever the index, the body and the writer are, and on every error: `Extract` leaves what the
-- writer held in place, and returns the number of bytes that it has added, as an int64.
pub extract-Accounts :
    (h : Hashes) (z : Zstd) (idx : Index) (ct : CompressionType) (w : Writer) (end : Ending)
    (s out : Bytes)
    → Accounts out 0 (extract h z idx ct w end s out)
unfolding extract extract_all
extract-Accounts h z idx ct w end s out =
    Accounts-or_return out 0 (size idx.chunk_checksum_type) _ refl
      λ _. Accounts-or_return out 0 (guard (valid ct) _) _ refl λ _. all idx.chunks
  where
    all :
        (es : List IndexEntry)
        → Accounts out 0 (extract_all h z idx.chunk_checksum_type ct w end es s out)
    all [] = Accounts-stop out 0 (ok tt) refl
    all (d ∷ es) =
        Accounts-or_return out 0 (or_panic (new_chunk_decoder z ct [])) _ refl λ dict_dec.
          Accounts-or_return out 0 (read_chunk h idx.chunk_checksum_type dict_dec d 0 end s) _ refl
            λ p.
              Accounts-or_return out 0 (new_chunk_decoder z ct p.0) _ refl λ dec.
                extract_chunks-Accounts h idx.chunk_checksum_type w dec end es 1 p.1 out 0 refl
