-- ===== src/Tests.antt =====
-- The concrete files, coders and hash functions on which the theorems are tried out.
pub mod Sections
pub mod Chunks
pub mod Transfer
pub mod Commands
pub mod Update
pub mod Fetches
pub mod Dictionary
pub mod Rewrites
pub mod Disk
use zchunk.Prelude.{
  ℕ, ◌≤◌, ◌≡◌, refl, sym, ap, ◌∙◌, List, [], ◌∷◌, ◌++◌, Option, none, some, length, take, replicate,
  min, length-take, length-append, length-replicate, arith,
}
use zchunk.Go.Reader.{Bytes}
use zchunk.Checksum.{Hashes}
use zchunk.Codec.{Zstd, DictOption}

-- A digest of `n` bytes that shows the first bytes of the data.
abbrev pub cut : ℕ → Bytes → Bytes
cut n d = take n (d ++ replicate n 0)

pub length-cut : (n : ℕ) (d : Bytes) → length (cut n d) ≡ n
length-cut n d = omega (
  arith,
  length-take n (d ++ replicate n 0),
  length-append d (replicate n 0),
  length-replicate {A = ℕ} n 0,
)

abbrev pub toy_hashes : Hashes
toy_hashes = record {
  sum1 = cut 20;
  sum256 = cut 32;
  sum512 = cut 64;
  length-sum1 = length-cut 20;
  length-sum256 = length-cut 32;
  length-sum512 = length-cut 64;
}

-- A coder that puts one byte in front of content that is not empty.
abbrev pub framed : Bytes → Bytes
framed [] = []
framed (b ∷ bs) = 40 ∷ b ∷ bs

abbrev pub unframed : Bytes → Option Bytes
unframed [] = some []
unframed (b ∷ bs) = some bs

pub unframed-framed : (b : Bytes) → unframed (framed b) ≡ some b
unframed-framed [] = refl
unframed-framed (b ∷ bs) = refl

pub framed_empty : (b : Bytes) → framed b ≡ [] → b ≡ []
framed_empty [] h = refl
framed_empty (b ∷ bs) h = cc

pub the_writer : {enc : Bytes → Bytes} → some framed ≡ some enc → (b : Bytes) → framed b ≡ enc b
the_writer made b = ap (λ o. elim o [ none ↦ framed b | some f ↦ f b ]) made

pub the_reader : {dec : Bytes → Option Bytes} → some unframed ≡ some dec → dec [] ≡ some []
the_reader made = sym (ap (λ o. elim o [ none ↦ some [] | some f ↦ f [] ]) made)

abbrev pub toy_zstd : Zstd
toy_zstd = record {
  new_writer = λ d. some framed;
  new_reader = λ d. some unframed;
  writer_no_dict = (framed, refl);
  reader_of_writer = λ d enc made.
      (unframed, refl, λ b. ap unframed (sym (the_writer made b)) ∙ unframed-framed b);
  empty_frame = λ d enc made. λ b h. framed_empty b (the_writer made b ∙ h);
  empty_input = λ dec made. the_reader made;
}
