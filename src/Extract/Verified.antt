-- ===== src/Extract/Verified.antt =====
-- What a chunk that `read_chunk` returns has been checked for.
use zchunk.Prelude.{
  ℕ, ◌≡◌, ◌∙◌, sym, ap, Bool-cases, ◌⊎◌, inl, inr, Option, none, some, [], ◌++◌, ◌==◌, ==_iff, leb,
  leb→le, length, length-take, length-zero, take, drop, take-append-drop, arith, if◌then◌else◌,
}
use zchunk.Go.Error.{Context}
use zchunk.Go.Result
use zchunk.Go.Result.{Result, ok, guard, make, in_context}
use zchunk.Go.Reader.{Bytes, Ending, read_full}
use zchunk.Checksum.{ChecksumType, Hashes, sum}
use zchunk.Lead.{equal}
use zchunk.Lead.RoundTrip.{equal_iff}
use zchunk.Index.{IndexEntry}
use zchunk.Codec.{ChunkDecoder, decompress}
use zchunk.Codec.RoundTrip.{decompress-length}
use zchunk.File.{or_nil}
use zchunk.Extract.{check_uncompressed, open_chunk, read_chunk}

-- The content agrees with the entry's digests and its length.
pub record Agrees (h : Hashes) (t : ChecksumType) (e : IndexEntry) (comp content : Bytes)
    : Type 0 where
  pub digest : or_nil (sum h t comp) ≡ e.digest
  pub full : length content ≡ e.full_length
  pub uncompressed : (d : Bytes) → e.uncompressed_digest ≡ some d → or_nil (sum h t content) ≡ d

check_uncompressed-eq-ok :
    (h : Hashes) (t : ChecksumType) (n : ℕ) (o : Option Bytes) (content : Bytes)
    → check_uncompressed h t n o content ≡ ok tt
    → (d : Bytes) → o ≡ some d
    → or_nil (sum h t content) ≡ d
unfolding check_uncompressed
check_uncompressed-eq-ok h t n none content c d e = cc
check_uncompressed-eq-ok h t n (some d') content c d e =
    elim (Bool-cases (equal (or_nil (sum h t content)) d')) [
      | inl same ↦ cc ((equal_iff (or_nil (sum h t content)) d').0 same)
      | inr differ ↦ cc (rw differ at c)
    ]

open_chunk-Agrees :
    (h : Hashes) (t : ChecksumType) (dec : ChunkDecoder) (e : IndexEntry) (n : ℕ) (comp : Bytes)
    {content : Bytes}
    → open_chunk h t dec e n comp ≡ ok content
    → Agrees h t e comp content
unfolding open_chunk
open_chunk-Agrees h t dec e n comp {content} o =
    let (own, o₁) = Result.guard-eq-ok (equal (or_nil (sum h t comp)) e.digest) _ _ o in
    let (out, opened, o₂) =
      Result.>>=-eq-ok (in_context (Context.chunk n) (decompress dec comp e.full_length)) _ o₁ in
    let (_, checked, o₃) =
      Result.>>=-eq-ok (check_uncompressed h t n e.uncompressed_digest out) _ o₂ in
    let same : out ≡ content = Result.ok-injective o₃ in
    record {
      digest = (equal_iff _ _).0 own;
      full =
          ap length (sym same)
          ∙ decompress-length dec comp e.full_length (Result.in_context-eq-ok _ _ opened);
      uncompressed = λ d there.
          ap (λ c. or_nil (sum h t c)) (sym same)
          ∙ check_uncompressed-eq-ok h t n e.uncompressed_digest out checked d there;
    }

read_full-eq-ok :
    (n : ℕ) (end : Ending) (s : Bytes) {a rest : Bytes}
    → read_full n end s ≡ ok (a, rest)
    → (s ≡ a ++ rest) × (length a ≡ n)
unfolding read_full
read_full-eq-ok n end s {a} {rest} r = elim (Bool-cases (leb n (length s))) [
  | inl enough ↦
      let parts : ok (take n s, drop n s) ≡ ok (a, rest) = rw enough at r in
      let pair = Result.ok-injective parts in
      let front : take n s ≡ a = ap (λ p. p.0) pair in
      let back : drop n s ≡ rest = ap (λ p. p.1) pair in
      (
        sym (take-append-drop n s) ∙ ap (λ x. x ++ drop n s) front ∙ ap (λ x. a ++ x) back,
        omega (arith, ap length front, length-take n s, leb→le n (length s) enough),
      )
  | inr short ↦ cc (rw short at r)
]

content_of-Agrees :
    (h : Hashes) (t : ChecksumType) (dec : ChunkDecoder) (e : IndexEntry) (n : ℕ) (comp : Bytes)
    {content : Bytes}
    → length comp ≡ e.comp_length
    → (if e.comp_length == 0 then ok [] else open_chunk h t dec e n comp) ≡ ok content
    → ((comp ≡ []) × (content ≡ [])) ⊎ Agrees h t e comp content
content_of-Agrees h t dec e n comp {content} long o = elim (Bool-cases (e.comp_length == 0)) [
  | inl none_there ↦
      let empty : ok [] ≡ ok content = rw none_there at o in
      inl (
        length-zero comp (long ∙ (==_iff e.comp_length 0).0 none_there),
        sym (Result.ok-injective empty),
      )
  | inr some_there ↦ inr (open_chunk-Agrees h t dec e n comp (rw some_there at o))
]

-- A chunk that is returned was verified: the bytes that were taken for it are as many as its entry says, and either there are none, and its content is empty, or their digest is the entry's, the content has the entry's length, and if the entry has an uncompressed digest, it is the content's.
pub read_chunk-Agrees :
    (h : Hashes) (t : ChecksumType) (dec : ChunkDecoder) (e : IndexEntry) (n : ℕ) (end : Ending)
    (s : Bytes) {content rest : Bytes}
    → read_chunk h t dec e n end s ≡ ok (content, rest)
    → (comp : Bytes) × (s ≡ comp ++ rest)
      × (length comp ≡ e.comp_length)
      × (((comp ≡ []) × (content ≡ [])) ⊎ Agrees h t e comp content)
unfolding read_chunk
read_chunk-Agrees h t dec e n end s {content} {rest} r =
    let make_all = Result.◌>>=◌ (make e.comp_length) (λ a. ok (a, s)) in
    let (made, sized, r₁) = Result.>>=-eq-ok make_all _ r in
    let (_, _, kept) = Result.>>=-eq-ok (make e.comp_length) (λ a. ok (a, s)) sized in
    let start : s ≡ made.1 = ap (λ p. p.1) (Result.ok-injective kept) in
    let body = in_context (Context.chunk_body n) (read_full e.comp_length end made.1) in
    let (p, read, r₂) = Result.>>=-eq-ok body _ r₁ in
    let (split, long) =
      read_full-eq-ok e.comp_length end made.1 {a = p.0} {rest = p.1}
        (Result.in_context-eq-ok _ _ read) in
    let checked : Result Bytes = if e.comp_length == 0 then ok [] else open_chunk h t dec e n p.0 in
    let (q, opened, r₃) = Result.>>=-eq-ok (Result.◌>>=◌ checked (λ a. ok (a, p.1))) _ r₂ in
    let (out, made_out, last) = Result.>>=-eq-ok checked (λ a. ok (a, p.1)) opened in
    let same : (out, p.1) ≡ (content, rest) = Result.ok-injective last ∙ Result.ok-injective r₃ in
    let out_eq : out ≡ content = ap (λ x. x.0) same in
    let rest_eq : p.1 ≡ rest = ap (λ x. x.1) same in
    (
      p.0,
      start ∙ split ∙ ap (λ x. p.0 ++ x) rest_eq,
      long,
      content_of-Agrees h t dec e n p.0 long (made_out ∙ ap ok out_eq),
    )
