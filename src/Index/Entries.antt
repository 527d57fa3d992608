-- ===== src/Index/Entries.antt =====
-- The entries of an index, written and read back one by one.
use zchunk.Prelude.{
  ℕ, zero, suc, ◌+◌, ◌<◌, ◌≤◌, ◌≡◌, ◌^◌, ◌∙◌, sym, refl, Bool, true, false, List, [], ◌∷◌, ◌++◌,
  Option, none, some, ◌==◌, length, length-append, All, append-nil, append_assoc, ==_iff, arith,
}
use zchunk.Go.Error.{Context}
use zchunk.Go.Result
use zchunk.Go.Result.{Result, ok, guard}
use zchunk.Go.Reader.{
  Bytes, Ending, Reads, Reads-bind, Reads-reading, Reads-last, Reads-pure, read_full-Reads,
}
use zchunk.CompressedInt.{append_compressed_int}
use zchunk.CompressedInt.Encode.{append_compressed_int-append}
use zchunk.CompressedInt.RoundTrip.{read_compressed_int-append_compressed_int}
use zchunk.Index.{
  IndexEntry, read_uncompressed_digest, read_entry, read_entries, slice, append_entry,
  append_entries,
}

-- The uncompressed digest is there exactly if the file asks for one.
abbrev pub HasDigest : Bool → ℕ → Option Bytes → Type 0
HasDigest true n (some d) = length d ≡ n
HasDigest true n none = ⊥
HasDigest false n d = d ≡ none

-- What `WriteTo` checks of an entry, and what Go's types and the flag ask of it.
pub record IsEntry (u : Bool) (n : ℕ) (e : IndexEntry) : Type 0 where
  pub digest_size : length e.digest ≡ n
  pub has_digest : HasDigest u n e.uncompressed_digest
  pub comp_fits : e.comp_length < 2 ^ 64
  pub full_fits : e.full_length < 2 ^ 64

abbrev pub entry_layout : IndexEntry → Bytes
entry_layout e =
    e.digest
    ++ (slice e.uncompressed_digest
        ++ (append_compressed_int [] e.comp_length ++ append_compressed_int [] e.full_length))

abbrev pub entries_layout : List IndexEntry → Bytes
entries_layout [] = []
entries_layout (e ∷ es) = entry_layout e ++ entries_layout es

uncompressed_digest-Reads :
    (u : Bool) (n i : ℕ) (d : Option Bytes)
    → HasDigest u n d
    → Reads (read_uncompressed_digest u n i) (slice d) d
unfolding read_uncompressed_digest
uncompressed_digest-Reads true n i (some d) h =
    Reads-last _ (Reads-reading (Context.chunk_uncompressed_digest i) (read_full-Reads d h))
uncompressed_digest-Reads true n i none h = absurd h
uncompressed_digest-Reads false n i none h = Reads-pure none
uncompressed_digest-Reads false n i (some d) h = cc

entry_layout-Reads :
    (u : Bool) (n i : ℕ) (e : IndexEntry)
    → IsEntry u n e
    → Reads (read_entry u n i) (entry_layout e) e
unfolding read_entry
entry_layout-Reads u n i e h =
    Reads-bind _ (Reads-reading (Context.chunk_digest i) (read_full-Reads e.digest h.digest_size)) (
      Reads-bind _ (uncompressed_digest-Reads u n i e.uncompressed_digest h.has_digest) (
        Reads-bind _
          (Reads-reading (Context.chunk_length i)
            (read_compressed_int-append_compressed_int e.comp_length h.comp_fits))
          (Reads-last _ (
            Reads-reading (Context.chunk_uncompressed_length i)
              (read_compressed_int-append_compressed_int e.full_length h.full_fits)))))

read_entries_step :
    (fuel : ℕ) (u : Bool) (n : ℕ) (acc : List IndexEntry) (end : Ending) (s : Bytes)
    → 0 < length s
    → {e : IndexEntry} {rest : Bytes} → read_entry u n (length acc) end s ≡ ok (e, rest)
    → read_entries (suc fuel) u n acc end s ≡ read_entries fuel u n (acc ++ e ∷ []) end rest
unfolding read_entries
read_entries_step fuel u n acc end [] pos h = absurd (omega arith)
read_entries_step fuel u n acc end (b ∷ s) pos h = rw h

entry_layout-pos :
    (u : Bool) (n : ℕ) (e : IndexEntry) (rest : Bytes)
    → 0 < n
    → IsEntry u n e
    → (0 < length (entry_layout e ++ rest)) × (length rest < length (entry_layout e ++ rest))
entry_layout-pos u n e rest pos h = rw (append_assoc e.digest _ rest) (
    omega (
      arith,
      length-append e.digest (
          (slice e.uncompressed_digest
            ++ (append_compressed_int [] e.comp_length ++ append_compressed_int [] e.full_length))
          ++ rest),
      length-append
          (slice e.uncompressed_digest
            ++ (append_compressed_int [] e.comp_length ++ append_compressed_int [] e.full_length))
          rest,
      h.digest_size,
    ))

-- The loop reads back all entries and stops at the end of the buffer.
pub read_entries-layout :
    (es : List IndexEntry) (fuel : ℕ) (u : Bool) (n : ℕ) (acc : List IndexEntry) (end : Ending)
    → 0 < n
    → All (IsEntry u n) es
    → length (entries_layout es) ≤ fuel
    → read_entries fuel u n acc end (entries_layout es) ≡ ok (acc ++ es, [])
read_entries-layout [] zero u n acc end pos h enough = rw append-nil (unfold read_entries in refl)
read_entries-layout [] (suc f) u n acc end pos h enough =
    rw append-nil (unfold read_entries in refl)
read_entries-layout (e ∷ es) zero u n acc end pos h enough =
    absurd (omega (arith, (entry_layout-pos u n e (entries_layout es) pos h.0).0))
read_entries-layout (e ∷ es) (suc fuel) u n acc end pos (h, hs) enough =
    let (some_left, shorter) = entry_layout-pos u n e (entries_layout es) pos h in
    read_entries_step fuel u n acc end _ some_left
      ((entry_layout-Reads u n (length acc) e h).run end (entries_layout es))
    ∙ read_entries-layout es fuel u n (acc ++ e ∷ []) end pos hs (omega arith)
    ∙ rw append_assoc

-- What Go's types ask of an entry, and that no digest is dropped which the file has no place for.
pub record Fits (u : Bool) (e : IndexEntry) : Type 0 where
  pub comp_fits : e.comp_length < 2 ^ 64
  pub full_fits : e.full_length < 2 ^ 64
  pub no_digest : u ≡ false → e.uncompressed_digest ≡ none

slice-HasDigest : (n : ℕ) (d : Option Bytes) → 0 < n → length (slice d) ≡ n → HasDigest true n d
slice-HasDigest n (some d) pos h = h
slice-HasDigest n none pos h = omega arith

pub append_lengths :
    (dst : Bytes) (a b : ℕ)
    → append_compressed_int (append_compressed_int dst a) b
      ≡ dst ++ (append_compressed_int [] a ++ append_compressed_int [] b)
append_lengths dst a b =
    append_compressed_int-append (append_compressed_int dst a) b
    ∙ rw (append_compressed_int-append dst a)
        (append_assoc dst (append_compressed_int [] a) (append_compressed_int [] b))

append_entry-eq-ok :
    (u : Bool) (n i : ℕ) (body : Bytes) (e : IndexEntry) {b : Bytes}
    → 0 < n
    → Fits u e
    → append_entry u n i body e ≡ ok b
    → IsEntry u n e × (b ≡ body ++ entry_layout e)
unfolding append_entry
append_entry-eq-ok true n i body e pos f h =
    let (own, h₁) = Result.guard-eq-ok (length e.digest == n) _ _ h in
    let (full, h₂) = Result.guard-eq-ok (length (slice e.uncompressed_digest) == n) _ _ h₁ in
    (
      record {
        digest_size = (==_iff _ _).0 own;
        has_digest = slice-HasDigest n e.uncompressed_digest pos ((==_iff _ _).0 full);
        comp_fits = f.comp_fits;
        full_fits = f.full_fits;
      },
      sym (Result.ok-injective h₂)
          ∙ append_lengths _ e.comp_length e.full_length
          ∙ append_assoc (body ++ e.digest) (slice e.uncompressed_digest) _
          ∙ append_assoc body e.digest _,
    )
append_entry-eq-ok false n i body e pos f h =
    let (own, h₁) = Result.guard-eq-ok (length e.digest == n) _ _ h in
    (
      record {
        digest_size = (==_iff _ _).0 own;
        has_digest = f.no_digest refl;
        comp_fits = f.comp_fits;
        full_fits = f.full_fits;
      },
      sym (Result.ok-injective h₁)
          ∙ append_lengths (body ++ e.digest) e.comp_length e.full_length
          ∙ rw (f.no_digest refl) (append_assoc body e.digest _),
    )

pub append_entries-eq-ok :
    (es : List IndexEntry) (u : Bool) (n i : ℕ) (body : Bytes) {b : Bytes}
    → 0 < n
    → All (Fits u) es
    → append_entries u n i body es ≡ ok b
    → All (IsEntry u n) es × (b ≡ body ++ entries_layout es)
unfolding append_entries
append_entries-eq-ok [] u n i body pos f h =
    (tt, sym (Result.ok-injective h) ∙ sym (append-nil body))
append_entries-eq-ok (e ∷ es) u n i body pos (f, fs) h =
    let (b', one, later) = Result.>>=-eq-ok (append_entry u n i body e) _ h in
    let (is_entry, layout) = append_entry-eq-ok u n i body e pos f one in
    let (are_entries, layouts) = append_entries-eq-ok es u n (i + 1) b' pos fs later in
    (
      (is_entry, are_entries),
      layouts ∙ rw layout (append_assoc body (entry_layout e) (entries_layout es)),
    )
