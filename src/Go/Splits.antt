-- ===== src/Go/Splits.antt =====
-- What a parser takes is the front of its input.
use zchunk.Prelude.{
  ℕ, ◌≡◌, ◌∙◌, sym, ap, Bool-cases, inl, inr, leb, [], ◌++◌, append_assoc, length, take-append-drop,
}
use zchunk.Go.Error.{Context}
use zchunk.Go.Result
use zchunk.Go.Result.{Result, ok, err, panic, stuck}
use zchunk.Go.Reader.{Bytes, Ending, Reading, pure, lift, reading, ◌>>=◌, read_full}
use zchunk.CompressedInt.{read_compressed_int}
use zchunk.CompressedInt.Bounds.{read_compressed_int-Takes}

-- The input is what was taken and the rest.
pub record Splits {ℓ} {A : Type ℓ} (m : Reading A) : Type ℓ where
  pub split :
      (end : Ending) (s : Bytes) {a : A} {rest : Bytes}
      → m end s ≡ ok (a, rest)
      → (used : Bytes) × (s ≡ used ++ rest)

module _ {ℓ} {A : Type ℓ} where
  pub Splits-pure : (a : A) → Splits (pure a)
  Splits-pure a = record { split = λ end s e. ([], ap (λ p. p.1) (Result.ok-injective e)) }

  pub Splits-lift : (r : Result A) → Splits (lift r)
  Splits-lift (ok a) = Splits-pure a
  Splits-lift (err x) = record { split = λ end s e. cc }
  Splits-lift panic = record { split = λ end s e. cc }
  Splits-lift stuck = record { split = λ end s e. cc }

  pub Splits-reading : (c : Context) {m : Reading A} → Splits m → Splits (reading c m)
  Splits-reading c {m} h = record {
    split = λ end s e. h.split end s (Result.in_context-eq-ok c (m end s) e);
  }

pub Splits-bind {ℓ κ} :
    {A : Type ℓ} {B : Type κ} {m : Reading A} (f : A → Reading B)
    → Splits m
    → ((a : A) → Splits (f a))
    → Splits (m >>= f)
Splits-bind {m} f h k = record {
  split = λ end s {a = b} {rest} e.
      let (p, first, second) = Result.>>=-eq-ok (m end s) _ e in
      let (used, front) = h.split end s first in
      let (more, back) = (k p.0).split end p.1 second in
      (used ++ more, front ∙ ap (λ x. used ++ x) back ∙ sym (append_assoc used more rest));
}

read_full-split :
    (n : ℕ) (end : Ending) (s : Bytes) {a rest : Bytes}
    → read_full n end s ≡ ok (a, rest)
    → s ≡ a ++ rest
unfolding read_full
read_full-split n end s {a} {rest} e = elim (Bool-cases (leb n (length s))) [
  | inl enough ↦
      let done = Result.ok-injective (rw enough at e) in
      sym (take-append-drop n s) ∙ ap (λ p. p.0 ++ p.1) done
  | inr short ↦ cc (rw short at e)
]

pub read_full-Splits : (n : ℕ) → Splits (read_full n)
read_full-Splits n = record { split = λ end s {a} e. (a, read_full-split n end s e) }

pub read_compressed_int-Splits : Splits read_compressed_int
read_compressed_int-Splits = record {
  split = λ end s e. let t = read_compressed_int-Takes end s e in (t.used, t.splits);
}
