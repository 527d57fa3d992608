-- ===== src/Cli/Chunking.antt =====
-- How `create` cuts its input into chunks.
use zchunk.Prelude.{
  ℕ, zero, suc, ◌≤◌, ◌<◌, ◌≡◌, ◌∙◌, ap, refl, true, false, Bool-cases, inl, inr, List, [], ◌∷◌,
  ◌++◌, leb, leb→le, length, length-take, length-drop, take, drop, take-append-drop, flatten,
  append-nil, arith,
}
use zchunk.Go.Result
use zchunk.Go.Result.{Result, ok}
use zchunk.Go.Reader.{Bytes, Ending}
use zchunk.Checksum.{Hashes}
use zchunk.Builder.{Builder, add_chunk, add_chunks}
use zchunk.Cli.{add_some, add_file, ended}

take_all {ℓ} : {A : Type ℓ} (n : ℕ) (xs : List A) → length xs ≤ n → take n xs ≡ xs
take_all zero [] h = refl
take_all zero (x ∷ xs) h = ground arith
take_all (suc n) [] h = refl
take_all (suc n) (x ∷ xs) h = ap (λ l. x ∷ l) (take_all n xs (omega (arith, h)))

-- Chunks of `n` bytes each, and one of fewer bytes, but not of none, at the end if need be.
abbrev pub Fixed : ℕ → List Bytes → Type 0
Fixed n [] = Unit
Fixed n (c ∷ []) = (0 < length c) × (length c ≤ n)
Fixed n (c ∷ d ∷ cs) = (length c ≡ n) × Fixed n (d ∷ cs)

-- The chunks of an input: adding the file is adding them, and then ending as the input ends.
pub record Cut (h : Hashes) (n : ℕ) (end : Ending) (fuel : ℕ) (s : Bytes) : Type 0 where
  pub chunks : List Bytes
  pub whole : flatten chunks ≡ s
  pub fixed : Fixed n chunks
  pub few : length chunks ≤ length s
  pub adds :
      (b : Builder) → add_file fuel h n end b s ≡ Result.◌>>=◌ (add_chunks h b chunks) (ended end)

bind-bind :
    (end : Ending) (r : Result Builder) (f g : Builder → Result Builder)
    → ((b : Builder) → f b ≡ Result.◌>>=◌ (g b) (ended end))
    → Result.◌>>=◌ r f ≡ Result.◌>>=◌ (Result.◌>>=◌ r g) (ended end)
bind-bind end (ok b) f g h = h b
bind-bind end (Result.err e) f g h = refl
bind-bind end Result.panic f g h = refl
bind-bind end Result.stuck f g h = refl

short_end :
    (h : Hashes) (n : ℕ) (end : Ending) (fuel : ℕ) (s : Bytes)
    → leb n (length s) ≡ false
    → Cut h n end (suc fuel) s
unfolding add_file add_some add_chunks
short_end h n end fuel [] short = record {
  chunks = [];
  whole = refl;
  fixed = tt;
  few = omega arith;
  adds = λ b. rw (take_all {A = ℕ} n [] (omega arith), short) refl;
}
short_end h n end fuel (x ∷ s) short =
    let small : length (x ∷ s) ≤ n = ground (arith, short) in
    record {
      chunks = (x ∷ s) ∷ [];
      whole = append-nil (x ∷ s);
      fixed = (omega arith, small);
      few = omega arith;
      adds = λ b.
          rw (take_all {A = ℕ} n (x ∷ s) small)
            (bind-bind end (add_chunk h b (x ∷ s)) _ _ λ b'. rw short refl);
    }

add_some-nonempty :
    (h : Hashes) (b : Builder) (c : Bytes) → 0 < length c → add_some h b c ≡ add_chunk h b c
unfolding add_some
add_some-nonempty h b [] some_bytes = ground arith
add_some-nonempty h b (x ∷ c) some_bytes = refl

Fixed-cons :
    (n : ℕ) (c : Bytes) (cs : List Bytes) → length c ≡ n → 0 < n → Fixed n cs → Fixed n (c ∷ cs)
Fixed-cons n c [] long positive fixed = (omega (arith, long), omega (arith, long))
Fixed-cons n c (d ∷ cs) long positive fixed = (long, fixed)

full_chunk :
    (h : Hashes) (n : ℕ) (end : Ending) (fuel : ℕ) (s : Bytes)
    → 0 < n
    → leb n (length s) ≡ true
    → Cut h n end fuel (drop n s)
    → Cut h n end (suc fuel) s
unfolding add_file add_chunks
full_chunk h n end fuel s positive full c =
    let inside = leb→le n (length s) full in
    let long : length (take n s) ≡ n = omega (arith, length-take n s, inside) in
    record {
      chunks = take n s ∷ c.chunks;
      whole = ap (λ x. take n s ++ x) c.whole ∙ take-append-drop n s;
      fixed = Fixed-cons n (take n s) c.chunks long positive c.fixed;
      few = omega (arith, c.few, length-drop n s, inside, positive);
      adds = λ b.
          rw (add_some-nonempty h b (take n s) (omega (arith, long, positive)))
            (bind-bind end (add_chunk h b (take n s)) _ _ λ b'. rw full (c.adds b'));
    }

pub add_file-Cut :
    (h : Hashes) (n : ℕ) (end : Ending) (fuel : ℕ) (s : Bytes)
    → 0 < n
    → length s < fuel
    → Cut h n end fuel s
add_file-Cut h n end zero s positive enough = absurd (omega (arith, enough))
add_file-Cut h n end (suc fuel) [] positive enough = short_end h n end fuel [] (ground arith)
add_file-Cut h n end (suc fuel) (x ∷ s) positive enough =
    elim (Bool-cases (leb n (length (x ∷ s)))) [
      | inr short ↦ short_end h n end fuel (x ∷ s) short
      | inl full ↦ full_chunk h n end fuel (x ∷ s) positive full (
          add_file-Cut h n end fuel (drop n (x ∷ s)) positive
            (omega (arith, length-drop n (x ∷ s), leb→le n (length (x ∷ s)) full, enough)))
    ]
