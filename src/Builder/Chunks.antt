-- ===== src/Builder/Chunks.antt =====
-- The chunks that a builder's index describes make up its body.
use mathlib.Core.Path.{subst}
use zchunk.Prelude.{
  ℕ, ◌<◌, ◌≡◌, ◌∙◌, sym, ap, refl, List, [], ◌∷◌, ◌++◌, length, take, drop, take-append,
  drop-append, flatten, append-nil, append_assoc, arith,
}
use zchunk.Go.Result
use zchunk.Go.Result.{Result, ok, max_int, u64_mod}
use zchunk.Go.Reader.{Bytes}
use zchunk.Checksum.{ChecksumType, Hashes, size, sum}
use zchunk.Preface.{CompressionType, valid}
use zchunk.Index.{IndexEntry}
use zchunk.Codec.{Zstd, new_chunk_encoder, compress, compress_chunk}
use zchunk.File.{or_nil}
use zchunk.Builder.{Builder, entry_of, append_chunk, add_dict, new_builder, add_chunk, add_chunks}

-- A chunk's bytes, as its entry describes them.
pub record Coded (h : Hashes) (t : ChecksumType) (e : IndexEntry) (c : Bytes) : Type 0 where
  pub long : length c ≡ e.comp_length
  pub digest : 0 < e.comp_length → or_nil (sum h t c) ≡ e.digest

unfoldable pub AllCoded : Hashes → ChecksumType → List IndexEntry → List Bytes → Type 0
AllCoded h t [] [] = Unit
AllCoded h t (e ∷ es) (c ∷ cs) = Coded h t e c × AllCoded h t es cs
AllCoded h t [] (c ∷ cs) = ⊥
AllCoded h t (e ∷ es) [] = ⊥

-- The chunks of a body, cut as the entries say.
abbrev pub chunks_of : List IndexEntry → Bytes → List Bytes
chunks_of [] body = []
chunks_of (e ∷ es) body = take e.comp_length body ∷ chunks_of es (drop e.comp_length body)

-- What a builder has made of its chunks.
pub record Built (h : Hashes) (t : ChecksumType) (b : Builder) : Type 0 where
  pub same_type : b.idx.chunk_checksum_type ≡ t
  pub chunks : List Bytes
  pub coded : AllCoded h t b.idx.chunks chunks
  pub whole : b.body ≡ flatten chunks

AllCoded-concat :
    (h : Hashes) (t : ChecksumType) (es : List IndexEntry) (cs : List Bytes) (e : IndexEntry)
    (c : Bytes)
    → AllCoded h t es cs
    → Coded h t e c
    → AllCoded h t (es ++ e ∷ []) (cs ++ c ∷ [])
unfolding AllCoded
AllCoded-concat h t [] [] e c all one = (one, tt)
AllCoded-concat h t (e' ∷ es) (c' ∷ cs) e c (first, all) one =
    (first, AllCoded-concat h t es cs e c all one)
AllCoded-concat h t [] (c' ∷ cs) e c no_way one = absurd no_way
AllCoded-concat h t (e' ∷ es) [] e c no_way one = absurd no_way

flatten-concat : (cs : List Bytes) (c : Bytes) → flatten (cs ++ c ∷ []) ≡ flatten cs ++ c
flatten-concat [] c = append-nil c
flatten-concat (d ∷ cs) c =
    ap (λ x. d ++ x) (flatten-concat cs c) ∙ sym (append_assoc d (flatten cs) c)

append_chunk-Built :
    (h : Hashes) (t : ChecksumType) (b : Builder) (e : IndexEntry) (c : Bytes)
    → Coded h t e c
    → Built h t b
    → Built h t (append_chunk b e c)
append_chunk-Built h t b e c one k = record {
  same_type = k.same_type;
  chunks = k.chunks ++ c ∷ [];
  coded = AllCoded-concat h t b.idx.chunks k.chunks e c k.coded one;
  whole = ap (λ x. x ++ c) k.whole ∙ sym (flatten-concat k.chunks c);
}

pub add_chunks-Built :
    (h : Hashes) (t : ChecksumType) (b : Builder) (plains : List Bytes) {b' : Builder}
    → Built h t b
    → add_chunks h b plains ≡ ok b'
    → Built h t b'
unfolding add_chunks add_chunk
add_chunks-Built h t b [] k e = subst (Built h t) (Result.ok-injective e) k
add_chunks-Built h t b (plain ∷ plains) k e =
    let (one, added, later) = Result.>>=-eq-ok (add_chunk h b plain) _ e in
    let (comp, _, built) = Result.>>=-eq-ok (compress b.enc plain) _ added in
    let entry : IndexEntry = entry_of h b.idx.chunk_checksum_type comp (length plain) in
    let one_more =
      append_chunk-Built h t b entry comp
        (record { long = refl; digest = λ _. ap (λ x. or_nil (sum h x comp)) (sym k.same_type) })
        k in
    add_chunks-Built h t one plains (subst (Built h t) (Result.ok-injective built) one_more) later

add_dict-Built :
    (h : Hashes) (z : Zstd) (ct : CompressionType) (t : ChecksumType) (n : ℕ) (d : Bytes)
    (b : Builder)
    → Built h t b
    → Built h t (add_dict h z ct n b d)
unfolding add_dict
add_dict-Built h z ct t n [] b k =
    append_chunk-Built h t b _ []
      (record { long = refl; digest = λ some_bytes. ground (arith, some_bytes) }) k
add_dict-Built h z ct t n (x ∷ xs) b k =
    let comp : Bytes = or_nil (compress_chunk z ct [] (x ∷ xs)) in
    append_chunk-Built h t b (entry_of h b.idx.chunk_checksum_type comp (length (x ∷ xs))) comp
      (record { long = refl; digest = λ _. ap (λ y. or_nil (sum h y comp)) (sym k.same_type) }) k

pub new_builder-Built :
    (h : Hashes) (z : Zstd) (ct : CompressionType) (t : ChecksumType) (dict : Bytes) {b : Builder}
    → new_builder h z ct t dict ≡ ok b
    → Built h t b
unfolding new_builder AllCoded
new_builder-Built h z ct t dict e =
    let (_, e₁) = Result.guard-eq-ok (valid ct) _ _ e in
    let (n, _, e₂) = Result.>>=-eq-ok (size t) _ e₁ in
    let (enc, _, e₃) = Result.>>=-eq-ok (new_chunk_encoder z ct dict) _ e₂ in
    let nothing : Builder = record {
      enc = enc;
      idx = record { chunk_checksum_type = t; chunks = [] };
      body = [];
    } in
    subst (Built h t) (Result.ok-injective e₃) (
      add_dict-Built h z ct t n dict nothing
        (record { same_type = refl; chunks = []; coded = tt; whole = refl }))

pub chunks_of-flatten :
    (h : Hashes) (t : ChecksumType) (es : List IndexEntry) (cs : List Bytes)
    → AllCoded h t es cs
    → chunks_of es (flatten cs) ≡ cs
unfolding AllCoded
chunks_of-flatten h t [] [] all = refl
chunks_of-flatten h t (e ∷ es) (c ∷ cs) (one, all) =
    rw (← one.long, take-append, drop-append) (ap (λ l. c ∷ l) (chunks_of-flatten h t es cs all))
chunks_of-flatten h t [] (c ∷ cs) no_way = absurd no_way
chunks_of-flatten h t (e ∷ es) [] no_way = absurd no_way
