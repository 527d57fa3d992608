-- ===== src/Go/Yields.antt =====
-- What a parser can return, on any input.
use mathlib.Core.Path.{subst}
use zchunk.Prelude.{
  ℕ, ◌≢◌, if◌then◌else◌, take, ◌<◌, ◌≤◌, ◌≡◌, ◌^◌, refl, ap, ◌∙◌, sym, Bool, true, false,
  Bool-cases, inl, inr, leb, leb→le, length, length-take, arith,
}
use zchunk.Go.Error.{Error, Context}
use zchunk.Go.Result
use zchunk.Go.Result.{Result, ok, err, panic, stuck, max_int}
use zchunk.Go.Reader.{Bytes, Ending, Reading, pure, lift, reading, ◌>>=◌, read_full}
use zchunk.CompressedInt.{read_compressed_int}
use zchunk.CompressedInt.Bounds.{read_compressed_int-Takes}

-- Whatever a parser returns has the property.
pub record Yields {ℓ κ} {A : Type ℓ} (m : Reading A) (P : A → Type κ) : Type (ℓ ⊔ κ) where
  pub holds : (end : Ending) (s : Bytes) {a : A} {rest : Bytes} → m end s ≡ ok (a, rest) → P a

module _ {ℓ κ} {A : Type ℓ} {P : A → Type κ} where
  pub Yields-pure : (a : A) → P a → Yields (pure a) P
  Yields-pure a h = record { holds = λ end s e. subst P (ap (λ p. p.0) (Result.ok-injective e)) h }

  pub Yields-lift : (r : Result A) → ((a : A) → r ≡ ok a → P a) → Yields (lift r) P
  Yields-lift (ok a) h = record {
    holds = λ end s e. h _ (ap (λ p. ok p.0) (Result.ok-injective e));
  }
  Yields-lift (err x) h = record { holds = λ end s e. cc }
  Yields-lift panic h = record { holds = λ end s e. cc }
  Yields-lift stuck h = record { holds = λ end s e. cc }

  pub Yields-reading : (c : Context) {m : Reading A} → Yields m P → Yields (reading c m) P
  Yields-reading c {m} h = record {
    holds = λ end s e. h.holds end s (Result.in_context-eq-ok c (m end s) e);
  }

module _ {ℓ κ μ ν} {A : Type ℓ} {B : Type κ} {P : A → Type μ} {Q : B → Type ν} where
  pub Yields-bind :
      {m : Reading A} (f : A → Reading B)
      → Yields m P
      → ((a : A) → P a → Yields (f a) Q)
      → Yields (m >>= f) Q
  Yields-bind {m} f h k = record {
    holds = λ end s e.
        let (p, first, second) = Result.>>=-eq-ok (m end s) _ e in
        (k p.0 (h.holds end s first)).holds end p.1 second;
  }

panic-ne-ok {ℓ} : {A : Type ℓ} {a : A} → ◌≢◌ {A = Result A} panic (ok a)
panic-ne-ok h = cc

err-ne-ok {ℓ} : {A : Type ℓ} {e : Error} {a : A} → ◌≢◌ {A = Result A} (err e) (ok a)
err-ne-ok h = cc

pub guard-true_of : (b : Bool) (e : Error) {u : Unit {0}} → Result.guard b e ≡ ok u → b ≡ true
guard-true_of true e h = refl
guard-true_of false e h = cc

pub Yields-guard : (b : Bool) (e : Error) → Yields (lift (Result.guard b e)) λ _. b ≡ true
Yields-guard b e = Yields-lift (Result.guard b e) λ u h. guard-true_of b e h

make-le : (n : ℕ) {u : Unit {0}} → Result.make n ≡ ok u → n ≤ max_int
make-le n h = elim (Bool-cases (leb n max_int)) [
  | inl fits ↦ leb→le n max_int fits
  | inr wide ↦ absurd (panic-ne-ok (sym (ap (λ b. if b then ok tt else panic) wide) ∙ h))
]

pub Yields-make : (n : ℕ) → Yields (lift (Result.make n)) λ _. n ≤ max_int
Yields-make n = Yields-lift (Result.make n) λ u h. make-le n h

read_full-length :
    (n : ℕ) (end : Ending) (s : Bytes) {a rest : Bytes}
    → read_full n end s ≡ ok (a, rest)
    → length a ≡ n
unfolding read_full
read_full-length n end s {a} e = elim (Bool-cases (leb n (length s))) [
  | inl enough ↦
      let same : take n s ≡ a = ap (λ p. p.0) (Result.ok-injective (rw enough at e)) in
      omega (arith, ap length same, length-take n s, leb→le n (length s) enough)
  | inr short ↦ absurd (err-ne-ok (rw short at e))
]

pub read_full-Yields : (n : ℕ) → Yields (read_full n) λ bs. length bs ≡ n
read_full-Yields n = record { holds = λ end s e. read_full-length n end s e }

pub read_compressed_int-Yields : Yields read_compressed_int λ v. v < 2 ^ 64
read_compressed_int-Yields = record { holds = λ end s e. (read_compressed_int-Takes end s e).fits }

pub Yields-weaken {ℓ κ μ} :
    {A : Type ℓ} {m : Reading A} {P : A → Type κ} {Q : A → Type μ}
    → Yields m P
    → ((a : A) → P a → Q a)
    → Yields m Q
Yields-weaken h k = record { holds = λ end s e. k _ (h.holds end s e) }
