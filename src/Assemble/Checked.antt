-- ===== src/Assemble/Checked.antt =====
-- What `assemble_with` has checked and counted, whatever the sources, the workers and the writer did.
use mathlib.Core.Path.{subst}
use zchunk.Prelude.{
  ℕ, zero, suc, ◌+◌, ◌%◌, ◌≡◌, ◌∙◌, sym, ap, refl, ◌⊎◌, inl, inr, Bool, true, false, Bool-cases,
  Option, none, some, Option-cases, List, [], ◌∷◌, ◌++◌, ◌==◌, ==_iff, leb, leb→le, length,
  length-append, length-take, length-drop, drop, flatten, append_assoc, append-nil, get_elem?,
  if◌then◌else◌, arith,
}
use zchunk.Go.Error.{Context}
use zchunk.Go.Result
use zchunk.Go.Result.{Result, ok, err, panic, stuck, guard, make, in_context, max_int, u64_mod}
use zchunk.Go.Reader.{Bytes}
use zchunk.Go.Writer.{Writer, Written, write}
use zchunk.Checksum.{Hashes, size, sum}
use zchunk.Lead.{equal}
use zchunk.Lead.RoundTrip.{equal_iff}
use zchunk.Index.{IndexEntry, Index}
use zchunk.File.{or_nil}
use zchunk.Delta.{ChunkSource, DeltaPlan}
use zchunk.Extract.{or_return}
use zchunk.Extract.Account.{
  Accounts, Accounts-stop, Accounts-or_return, Accounts-trans, write-Accounts,
}
use zchunk.Assemble.{
  RemoteRun, ReaderAt, remote_runs, Pending, idle, in_range, read_local, cut, split, split_first,
  start_run, from_source, next_piece, verify_write, write_piece, assemble_from, assemble_with,
}

-- The bytes written for source `s` of chunk `i`.
abbrev pub Verified : Hashes → Index → ℕ → ChunkSource → Bytes → Type 0
Verified h target i s b =
    ((s.size ≡ 0) × (b ≡ []))
    ⊎ ((length b ≡ s.size)
        × (e : IndexEntry) × (get_elem? target.chunks i ≡ some e)
        × (or_nil (sum h target.chunk_checksum_type b) ≡ e.digest))

-- The sources, from chunk `i` on, and the bytes written for them.
abbrev pub AllVerified : Hashes → Index → ℕ → List ChunkSource → List Bytes → Type 0
AllVerified h target i [] [] = Unit
AllVerified h target i (s ∷ ss) (b ∷ bs) =
    Verified h target i s b × AllVerified h target (i + 1) ss bs
AllVerified h target i [] (b ∷ bs) = ⊥
AllVerified h target i (s ∷ ss) [] = ⊥

pub or_return-eq-ok {ℓ} :
    {A : Type ℓ} (out : Bytes) (n : ℕ) (r : Result A) (k : A → Written)
    → (or_return out n r k).result ≡ ok tt
    → (a : A) × (r ≡ ok a) × (or_return out n r k ≡ k a)
or_return-eq-ok out n (ok a) k h = (a, refl, refl)
or_return-eq-ok out n (err e) k h = cc
or_return-eq-ok out n panic k h = cc
or_return-eq-ok out n stuck k h = cc

-- A piece to write has the source's length, and nothing is written for an empty chunk only.
abbrev Fits : ChunkSource → Option Bytes × Pending → Type 0
Fits s (none, st) = s.size ≡ 0
Fits s (some b, st) = length b ≡ s.size

-- What holds of a result, if it is one.
abbrev OnOk {ℓ} : {A : Type ℓ} → (A → Type 0) → Result A → Type 0
OnOk P (ok a) = P a
OnOk P _ = Unit

OnOk-bind {ℓ κ} :
    {A : Type ℓ} {B : Type κ} (P : B → Type 0) (r : Result A) (f : A → Result B)
    → ((a : A) → OnOk P (f a))
    → OnOk P (Result.◌>>=◌ r f)
OnOk-bind P (ok a) f h = h a
OnOk-bind P (err e) f h = tt
OnOk-bind P panic f h = tt
OnOk-bind P stuck f h = tt

OnOk-if {ℓ} :
    {A : Type ℓ} (P : A → Type 0) (b : Bool) (r r' : Result A)
    → (b ≡ true → OnOk P r)
    → (b ≡ false → OnOk P r')
    → OnOk P (if b then r else r')
OnOk-if P true r r' h h' = h refl
OnOk-if P false r r' h h' = h' refl

split-Fits : (b : Bytes) (pos left : ℕ) (s : ChunkSource) → OnOk (Fits s) (split b pos left s)
unfolding split cut
split-Fits b pos left s = elim (Bool-cases (leb (pos + s.size) (length b))) [
  | inl inside ↦ rw inside (
      omega (
        arith,
        length-take s.size (drop pos b),
        length-drop pos b,
        leb→le (pos + s.size) (length b) inside,
      ))
  | inr outside ↦ rw outside tt
]

read_local-Fits :
    (local : ReaderAt) (i : ℕ) (s : ChunkSource)
    → OnOk (Fits s) (Result.◌>>=◌ (read_local local i s) λ b. ok (some b, idle))
unfolding read_local
read_local-Fits local i s = elim (Bool-cases (leb s.size max_int)) [
  | inr large ↦ rw large tt
  | inl small ↦ elim (Bool-cases (length (local s.offset s.size).0 == s.size)) [
    | inr short ↦ rw (small, short) tt
    | inl whole ↦ rw (small, whole) ((==_iff _ _).0 whole)
  ]
]

module _ (local : ReaderAt) (runs : List RemoteRun) (results : ℕ → Result Bytes) where
  start_run-Fits : (i : ℕ) (s : ChunkSource) → OnOk (Fits s) (start_run local runs results i s)
  unfolding start_run split_first
  start_run-Fits i s = OnOk-bind (Fits s) (in_range _) _ λ run.
      OnOk-bind (Fits s) (in_context (Context.fetch_chunk i) (results _)) _
        λ b. by_count b run.count
    where
      by_count : (b : Bytes) (count : ℕ) → OnOk (Fits s) (split_first b count s)
      by_count b zero = tt
      by_count b (suc left) = split-Fits b 0 left s

  next_piece-Fits :
      (b : Bytes) (pos left i : ℕ) (s : ChunkSource)
      → OnOk (Fits s) (next_piece local runs results b pos left i s)
  unfolding next_piece from_source
  next_piece-Fits b pos (suc left) i s = split-Fits b pos left s
  next_piece-Fits b pos zero i s =
      OnOk-if (Fits s) (s.size == 0) _ _ (λ empty. (==_iff s.size 0).0 empty)
        λ _.
          OnOk-if (Fits s) s.is_local _ _ (λ _. read_local-Fits local i s) λ _. start_run-Fits i s

-- What a `verify_write` that succeeds has done.
verify_write-Verified :
    (h : Hashes) (target : Index) (i : ℕ) (s : ChunkSource) (b : Bytes) (w : Writer) (out : Bytes)
    → length b ≡ s.size
    → (verify_write h target i b w out).result ≡ ok tt
    → Verified h target i s b
      × ((verify_write h target i b w out).out ≡ out ++ b)
      × ((verify_write h target i b w out).count ≡ length b % u64_mod)
unfolding verify_write write
verify_write-Verified h target i s b w out long done =
    elim (Option-cases (get_elem? target.chunks i)) [
      | inl missing ↦ cc (rw missing at done)
      | inr (e, there) ↦
          let checked = equal (or_nil (sum h target.chunk_checksum_type b)) e.digest in
          elim (Bool-cases checked) [
            | inr differ ↦ cc (rw (there, differ) at done)
            | inl same ↦ elim (Option-cases (w out b)) [
              | inr (n, part) ↦ cc (rw (there, same, part, write) at done)
              | inl whole ↦
                  let written : write w out b
                      ≡ record { out = out ++ b; count = length b % u64_mod; result = ok tt } =
                    rw (whole, write) in
                  rw (there, same, written)
                    (inr (long, e, refl, (equal_iff _ _).0 same), refl, refl)
            ]
          ]
    ]

-- What a run of the loop that succeeds has written, from source `i` on.
record Wrote (h : Hashes) (target : Index) (i : ℕ) (ss : List ChunkSource) (out : Bytes) (n : ℕ)
    (r : Written) : Type 0 where
  pieces : List Bytes
  verified : AllVerified h target i ss pieces
  holds : r.out ≡ out ++ flatten pieces
  counts : r.count ≡ (n + length (flatten pieces)) % u64_mod

write_piece-Wrote :
    (h : Hashes) (target : Index) (w : Writer) (i : ℕ) (s : ChunkSource) (ss : List ChunkSource)
    (o : Option Bytes) (st : Pending) (out : Bytes) (n : ℕ) (k : Bytes → ℕ → Written)
    → n ≡ n % u64_mod
    → Fits s (o, st)
    → ((out' : Bytes) (n' : ℕ)
        → n' ≡ n' % u64_mod
        → (k out' n').result ≡ ok tt
        → Wrote h target (i + 1) ss out' n' (k out' n'))
    → (write_piece h target w i o out n k).result ≡ ok tt
    → Wrote h target i (s ∷ ss) out n (write_piece h target w i o out n k)
unfolding write_piece
write_piece-Wrote h target w i s ss none st out n k fits empty later ended =
    let r = later out n fits ended in
    record {
      pieces = [] ∷ r.pieces;
      verified = (inl (empty, refl), r.verified);
      holds = r.holds;
      counts = r.counts;
    }
write_piece-Wrote h target w i s ss (some b) st out n k fits long later ended =
    let v = verify_write h target i b w out in
    let n' : ℕ = (n + v.count) % u64_mod in
    let (_, done, rest) = or_return-eq-ok v.out n' v.result _ ended in
    let (verified, holds, counts) = verify_write-Verified h target i s b w out long done in
    let r = later v.out n' (omega arith) (sym (ap (λ (x : Written). x.result) rest) ∙ ended) in
    rw rest (record {
      pieces = b ∷ r.pieces;
      verified = (verified, r.verified);
      holds =
          r.holds ∙ ap (λ x. x ++ flatten r.pieces) holds ∙ append_assoc out b (flatten r.pieces);
      counts = omega (arith, r.counts, counts, length-append b (flatten r.pieces));
    })

verify_write-Accounts :
    (h : Hashes) (target : Index) (i : ℕ) (b : Bytes) (w : Writer) (out : Bytes)
    → Accounts out 0 (verify_write h target i b w out)
unfolding verify_write
verify_write-Accounts h target i b w out =
    Accounts-or_return out 0 (in_range (get_elem? target.chunks i)) _ refl λ e.
      Accounts-or_return out 0 (guard (equal _ e.digest) _) _ refl λ _.
        let a = write-Accounts w out b in
        record { added = a.added; holds = a.holds; counts = a.counts }

write_piece-Accounts :
    (h : Hashes) (target : Index) (w : Writer) (i : ℕ) (o : Option Bytes) (out : Bytes) (n : ℕ)
    (k : Bytes → ℕ → Written)
    → n ≡ n % u64_mod
    → ((out' : Bytes) (n' : ℕ) → n' ≡ n' % u64_mod → Accounts out' n' (k out' n'))
    → Accounts out n (write_piece h target w i o out n k)
unfolding write_piece
write_piece-Accounts h target w i none out n k fits later = later out n fits
write_piece-Accounts h target w i (some b) out n k fits later =
    let v = verify_write h target i b w out in
    let n' : ℕ = (n + v.count) % u64_mod in
    Accounts-trans {r = v} (verify_write-Accounts h target i b w out)
      (Accounts-or_return v.out n' v.result _ (omega arith) λ _. later v.out n' (omega arith))

module _ (local : ReaderAt) (runs : List RemoteRun) (results : ℕ → Result Bytes) (h : Hashes)
    (target : Index) (w : Writer) where
  assemble_from-Wrote :
      (ss : List ChunkSource) (i : ℕ) (st : Pending) (out : Bytes) (n : ℕ)
      → n ≡ n % u64_mod
      → (assemble_from local runs results h target w ss i st out n).result ≡ ok tt
      → Wrote h target i ss out n (assemble_from local runs results h target w ss i st out n)
  unfolding assemble_from
  assemble_from-Wrote [] i st out n fits ended = record {
    pieces = [];
    verified = tt;
    holds = sym (append-nil out);
    counts = omega arith;
  }
  assemble_from-Wrote (s ∷ ss) i st out n fits ended =
      let piece = next_piece local runs results st.fetched st.pos st.left i s in
      let (p, got, rest) = or_return-eq-ok out n piece _ ended in
      let long : Fits s p =
        subst (OnOk (Fits s)) got
          (next_piece-Fits local runs results st.fetched st.pos st.left i s) in
      rw rest (
        write_piece-Wrote h target w i s ss p.0 p.1 out n _ fits long
          (λ out' n'. assemble_from-Wrote ss (i + 1) p.1 out' n')
          (sym (ap (λ (x : Written). x.result) rest) ∙ ended))

  assemble_from-Accounts :
      (ss : List ChunkSource) (i : ℕ) (st : Pending) (out : Bytes) (n : ℕ)
      → n ≡ n % u64_mod
      → Accounts out n (assemble_from local runs results h target w ss i st out n)
  unfolding assemble_from
  assemble_from-Accounts [] i st out n fits = Accounts-stop out n _ fits
  assemble_from-Accounts (s ∷ ss) i st out n fits =
      Accounts-or_return out n (next_piece local runs results st.fetched st.pos st.left i s) _ fits
        λ p.
          write_piece-Accounts h target w i p.0 out n _ fits
            λ out' n'. assemble_from-Accounts ss (i + 1) p.1 out' n'

-- Whatever the plan, the local reader, the fetched results and the writer are: if `AssembleBody`
-- succeeds, it has written one piece for each source, in order, and returns their total length (an
-- int64); a piece has the source's length, and is empty or has the digest of the target's chunk at
-- its place.
pub assemble_with-Verified :
    (h : Hashes) (p : DeltaPlan) (target : Index) (local : ReaderAt) (results : ℕ → Result Bytes)
    (w : Writer) (out : Bytes)
    → (assemble_with h p target local results w out).result ≡ ok tt
    → (pieces : List Bytes) × AllVerified h target 0 p.sources pieces
      × ((assemble_with h p target local results w out).out ≡ out ++ flatten pieces)
      × ((assemble_with h p target local results w out).count ≡ length (flatten pieces) % u64_mod)
unfolding assemble_with
assemble_with-Verified h p target local results w out ended =
    let (n, known, rest) = or_return-eq-ok out 0 (size target.chunk_checksum_type) _ ended in
    let r =
      assemble_from-Wrote local (remote_runs p) results h target w p.sources 0 idle out 0 refl
        (sym (ap (λ (x : Written). x.result) rest) ∙ ended) in
    rw rest (r.pieces, r.verified, r.holds, omega (arith, r.counts))

-- On every path, errors included, `AssembleBody` leaves what the writer held in place and returns
-- the number of bytes that it has added, as an int64.
pub assemble_with-Accounts :
    (h : Hashes) (p : DeltaPlan) (target : Index) (local : ReaderAt) (results : ℕ → Result Bytes)
    (w : Writer) (out : Bytes)
    → Accounts out 0 (assemble_with h p target local results w out)
unfolding assemble_with
assemble_with-Accounts h p target local results w out =
    Accounts-or_return out 0 (size target.chunk_checksum_type) _ refl λ _.
      assemble_from-Accounts local (remote_runs p) results h target w p.sources 0 idle out 0 refl
