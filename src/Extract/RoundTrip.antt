-- ===== src/Extract/RoundTrip.antt =====
-- `extract` returns what a `Builder` was given.
use zchunk.Prelude.{
  ℕ, ◌+◌, ◌%◌, ◌≤◌, ◌≡◌, ◌∙◌, sym, ap, refl, false, List, [], ◌∷◌, ◌++◌, ◌==◌, length,
  length-append, flatten, append-nil, append_assoc, if◌then◌else◌, arith,
}
use zchunk.Go.Error.{Context}
use zchunk.Go.Result.{Result, ok, max_int, u64_mod}
use zchunk.Go.Reader.{
  Bytes, Ending, Reads, Reads-bind, Reads-skip, Reads-lift, Reads-make, Reads-reading, Reads-last,
  Reads-bytes, read_full-Reads,
}
use zchunk.Go.Writer.{Written, write, buffer}
use zchunk.Checksum.{ChecksumType, Hashes, sum}
use zchunk.Lead.RoundTrip.{equal_iff}
use zchunk.Index.{IndexEntry}
use zchunk.Codec.{ChunkEncoder, ChunkDecoder, compress}
use zchunk.Codec.RoundTrip.{Inverts}
use zchunk.File.{or_nil}
use zchunk.Builder.{entry_of}
use zchunk.Extract.{open_chunk, read_chunk, extract_chunks}

pub written-eq :
    {o o' : Bytes} {c c' : ℕ} (r : Result (Unit {0}))
    → o ≡ o'
    → c ≡ c'
    → ◌≡◌ {A = Written}
        (record { out = o; count = c; result = r })
        (record { out = o'; count = c'; result = r })
written-eq r p q = λ i. record { out = p i; count = q i; result = r }

module _ (h : Hashes) (t : ChecksumType) (ce : ChunkEncoder) where
  -- The entries and the body bytes of chunks that were coded one after the other.
  abbrev pub Codes : List IndexEntry → List Bytes → Bytes → Type 0
  Codes [] [] b = b ≡ []
  Codes (e ∷ es) (p ∷ ps) b =
      (c : Bytes) × (rest : Bytes) × (compress ce p ≡ ok c)
      × (e ≡ entry_of h t c (length p))
      × (b ≡ c ++ rest)
      × Codes es ps rest
  Codes [] (p ∷ ps) b = ⊥
  Codes (e ∷ es) [] b = ⊥

  pub Codes-concat :
      (es : List IndexEntry) (ps : List Bytes) (b : Bytes) (p c : Bytes)
      → Codes es ps b
      → compress ce p ≡ ok c
      → Codes (es ++ entry_of h t c (length p) ∷ []) (ps ++ p ∷ []) (b ++ c)
  Codes-concat [] [] b p c e made =
      (c, [], made, refl, ap (λ x. x ++ c) e ∙ sym (append-nil c), refl)
  Codes-concat [] (q ∷ ps) b p c no_way made = absurd no_way
  Codes-concat (e ∷ es) [] b p c no_way made = absurd no_way
  Codes-concat (e ∷ es) (q ∷ ps) b p c (c', rest, m, s, split, later) made = (
    c',
    rest ++ c,
    m,
    s,
    ap (λ x. x ++ c) split ∙ append_assoc c' rest c,
    Codes-concat es ps rest p c later made,
  )

  module _ (cd : ChunkDecoder) (inverts : Inverts ce cd) where
    open_chunk-compress :
        (p c : Bytes) (i : ℕ)
        → compress ce p ≡ ok c
        → open_chunk h t cd (entry_of h t c (length p)) i c ≡ ok p
    unfolding open_chunk
    open_chunk-compress p c i made =
        rw ((equal_iff (or_nil (sum h t c)) (or_nil (sum h t c))).1 refl, inverts.reads_back p made)

    -- The branch of `readChunk` for an empty chunk agrees: its content is empty.
    content_of :
        (c : Bytes) {p : Bytes} (i : ℕ)
        → compress ce p ≡ ok c
        → (if length c == 0 then ok [] else open_chunk h t cd (entry_of h t c (length p)) i c)
          ≡ ok p
    content_of [] {p} i made = ap ok (sym (inverts.empty p made))
    content_of (x ∷ c) {p} i made =
        let some_bytes : (length (x ∷ c) == 0) ≡ false = ground arith in
        rw some_bytes (open_chunk-compress p (x ∷ c) i made)

    pub read_chunk-compress :
        (p c : Bytes) (i : ℕ)
        → compress ce p ≡ ok c
        → length c ≤ max_int
        → Reads (read_chunk h t cd (entry_of h t c (length p)) i) c p
    unfolding read_chunk
    read_chunk-compress p c i made few = Reads-skip _ (Reads-make (length c) few) (
        Reads-bytes (append-nil c) (
          Reads-bind _ (Reads-reading (Context.chunk_body i) (read_full-Reads c refl))
            (Reads-last _ (Reads-lift _ content))))
      where
        content :
            (if length c == 0 then ok [] else open_chunk h t cd (entry_of h t c (length p)) i c)
            ≡ ok p
        content = content_of c i made

    pub extract_chunks-Codes :
        (es : List IndexEntry) (ps : List Bytes) (b : Bytes) (i : ℕ) (end : Ending)
        (rest out : Bytes) (count : ℕ)
        → count ≡ count % u64_mod
        → length b ≤ max_int
        → Codes es ps b
        → extract_chunks h t buffer cd end es i (b ++ rest) out count ≡ record {
          out = out ++ flatten ps;
          count = (count + length (flatten ps)) % u64_mod;
          result = ok tt;
        }
    unfolding extract_chunks write
    extract_chunks-Codes [] [] b i end rest out count fits few e =
        written-eq (ok tt) (sym (append-nil out)) (omega arith)
    extract_chunks-Codes [] (q ∷ ps) b i end rest out count fits few no_way = absurd no_way
    extract_chunks-Codes (e ∷ es) [] b i end rest out count fits few no_way = absurd no_way
    extract_chunks-Codes (e ∷ es) (p ∷ ps) b i end rest out count fits few
          (c, back, m, s, split, later) =
        let lengths : length b ≡ length c + length back = ap length split ∙ length-append c back in
        let content : read_chunk h t cd e i end (b ++ rest) ≡ ok (p, back ++ rest) =
          rw (s, split)
            (rw append_assoc
              ((read_chunk-compress p c i m (omega arith)).run end (back ++ rest))) in
        let count' : ℕ = (count + length p % u64_mod) % u64_mod in
        rw content (
          extract_chunks-Codes es ps back (i + 1) end rest (out ++ p) count' (omega arith)
            (omega arith) later
          ∙ written-eq (ok tt) (append_assoc out p (flatten ps))
              (omega (arith, length-append p (flatten ps))))
