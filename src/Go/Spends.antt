-- ===== src/Go/Spends.antt =====
-- How many bytes a parser takes, at least, for what it returns.
use zchunk.Prelude.{
  ℕ, ◌+◌, ◌≤◌, ◌≡◌, refl, ap, Bool-cases, inl, inr, leb, leb→le, [], length, length-take,
  length-drop, arith,
}
use zchunk.Go.Error.{Context}
use zchunk.Go.Result
use zchunk.Go.Result.{Result, ok, err, panic, stuck}
use zchunk.Go.Reader.{Bytes, Ending, Reading, pure, lift, reading, ◌>>=◌, read_full}
use zchunk.CompressedInt.{append_compressed_int, read_compressed_int}
use zchunk.CompressedInt.Shortest.{read_compressed_int-shortest}

-- `a` was returned when at least `count` of `total` bytes were taken.
pub record Spent {ℓ κ} {A : Type ℓ} (Q : A → ℕ → Type κ) (total : ℕ) (a : A) (rest : Bytes)
    : Type κ where
  pub count : ℕ
  pub left : count + length rest ≤ total
  pub holds : Q a count

-- When `n` bytes were taken before, `Q` relates the result to those that are taken then.
pub record Spends {ℓ κ} {A : Type ℓ} (n : ℕ) (m : Reading A) (Q : A → ℕ → Type κ)
    : Type (ℓ ⊔ κ) where
  pub run :
      (end : Ending) (s : Bytes) (total : ℕ) {b : A} {rest : Bytes}
      → n + length s ≤ total
      → m end s ≡ ok (b, rest)
      → Spent Q total b rest

module _ {ℓ κ} {A : Type ℓ} {Q : A → ℕ → Type κ} where
  pub Spends-reading :
      (n : ℕ) (c : Context) {m : Reading A} → Spends n m Q → Spends n (reading c m) Q
  Spends-reading n c {m} h = record {
    run = λ end s total le e. h.run end s total le (Result.in_context-eq-ok c (m end s) e);
  }

  pub Spends-pure : (n : ℕ) (a : A) → Q a n → Spends n (pure a) Q
  Spends-pure n a q = record {
    run = λ end s total {b} {rest} le e.
        let same : (a ≡ b) × (s ≡ rest) =
          (ap (λ p. p.0) (Result.ok-injective e), ap (λ p. p.1) (Result.ok-injective e)) in
        rw (← same.0) (record { count = n; left = omega (arith, ap length same.1, le); holds = q });
  }

module _ {ℓ κ μ ν} {A : Type ℓ} {B : Type κ} {P : A → ℕ → Type μ} {Q : B → ℕ → Type ν} where
  pub Spends-bind :
      (n : ℕ) {m : Reading A} (f : A → Reading B)
      → Spends n m P
      → ((a : A) (k : ℕ) → P a k → Spends k (f a) Q)
      → Spends n (m >>= f) Q
  Spends-bind n {m} f h k = record {
    run = λ end s total le e.
        let (p, first, second) = Result.>>=-eq-ok (m end s) _ e in
        let t = h.run end s total le first in
        (k p.0 t.count t.holds).run end p.1 total t.left second;
  }

module _ {ℓ κ} {A : Type ℓ} {B : Type κ} {Q : B → ℕ → Type κ} where
  -- A step that reads nothing.
  pub Spends-lift :
      (n : ℕ) (r : Result A) (f : A → Reading B)
      → ((a : A) → r ≡ ok a → Spends n (f a) Q)
      → Spends n (lift r >>= f) Q
  Spends-lift n (ok a) f h = h a refl
  Spends-lift n (err x) f h = record { run = λ end s total le e. cc }
  Spends-lift n panic f h = record { run = λ end s total le e. cc }
  Spends-lift n stuck f h = record { run = λ end s total le e. cc }

read_full-taken :
    (k : ℕ) (end : Ending) (s : Bytes) {a rest : Bytes}
    → read_full k end s ≡ ok (a, rest)
    → (length a ≡ k) × (k + length rest ≤ length s)
unfolding read_full
read_full-taken k end s {a} {rest} e = elim (Bool-cases (leb k (length s))) [
  | inl enough ↦
      let done = Result.ok-injective (rw enough at e) in
      let le = leb→le k (length s) enough in
      (
        omega (arith, ap (λ p. length p.0) done, length-take k s, le),
        omega (arith, ap (λ p. length p.1) done, length-drop k s, le),
      )
  | inr short ↦ cc (rw short at e)
]

pub read_full-Spends :
    (n k : ℕ) → Spends n (read_full k) λ a count. (length a ≡ k) × (count ≡ n + k)
read_full-Spends n k = record {
  run = λ end s total le e.
      let (long, taken) = read_full-taken k end s e in
      record { count = n + k; left = omega (arith, taken, le); holds = (long, refl) };
}

pub read_compressed_int-Spends :
    (n : ℕ)
    → Spends n read_compressed_int λ v count. count ≡ n + length (append_compressed_int [] v)
read_compressed_int-Spends n = record {
  run = λ end s total le e. record {
    count = _;
    left = omega (arith, read_compressed_int-shortest end s e, le);
    holds = refl;
  };
}
