-- ===== src/Go/Settled.antt =====
-- A parser that returns: its loops have fuel enough, and it never gives bytes back.
use zchunk.Prelude.{
  ◌≢◌, ℕ, ◌+◌, ◌≤◌, refl, Bool, true, false, inl, inr, Bool-cases, leb, length, length-append,
  length-drop, arith,
}
use zchunk.Go.Error.{Error, Context}
use zchunk.Go.Result
use zchunk.Go.Result.{Result, ok, err, panic, stuck}
use zchunk.Go.Reader.{Bytes, Ending, Reading, pure, lift, reading, ◌>>=◌, read_full}
use zchunk.CompressedInt.{read_compressed_int}
use zchunk.CompressedInt.Bounds.{read_compressed_int_total, read_compressed_int-Takes, Takes}

-- A success takes at least `k` of the `n` bytes, and fuel never runs out.
abbrev pub Settled {ℓ} : {A : Type ℓ} → ℕ → ℕ → Result (A × Bytes) → Type 0
Settled k n (ok (a, rest)) = length rest + k ≤ n
Settled k n (err e) = Unit
Settled k n panic = Unit
Settled k n stuck = ⊥

-- A parser that takes at least `k` bytes, or fails, on every input.
pub record Settles {ℓ} {A : Type ℓ} (k : ℕ) (m : Reading A) : Type 0 where
  pub settled : (end : Ending) (s : Bytes) → Settled k (length s) (m end s)

module _ {ℓ} {A : Type ℓ} where
  Settled-in_context :
      (k n : ℕ) (c : Context) (r : Result (A × Bytes))
      → Settled k n r
      → Settled k n (Result.in_context c r)
  Settled-in_context k n c (ok (a, rest)) h = h
  Settled-in_context k n c (err e) h = tt
  Settled-in_context k n c panic h = tt
  Settled-in_context k n c stuck h = absurd h

  pub Settled-weaken : (k n m : ℕ) (r : Result (A × Bytes)) → n ≤ m → Settled k n r → Settled k m r
  Settled-weaken k n m (ok (a, rest)) le h = omega arith
  Settled-weaken k n m (err e) le h = tt
  Settled-weaken k n m panic le h = tt
  Settled-weaken k n m stuck le h = absurd h

  pub Settled-less : (k n : ℕ) (r : Result (A × Bytes)) → Settled k n r → Settled 0 n r
  Settled-less k n (ok (a, rest)) h = omega arith
  Settled-less k n (err e) h = tt
  Settled-less k n panic h = tt
  Settled-less k n stuck h = absurd h

  pub Settled-ne-stuck : (k n : ℕ) (r : Result (A × Bytes)) → Settled k n r → r ≢ stuck
  Settled-ne-stuck k n (ok (a, rest)) h e = cc
  Settled-ne-stuck k n (err x) h e = cc
  Settled-ne-stuck k n panic h e = cc
  Settled-ne-stuck k n stuck h e = absurd h

  pub Settles-lift : (r : Result A) → r ≢ stuck → Settles 0 (lift r)
  Settles-lift (ok a) h = record { settled = λ end s. omega arith }
  Settles-lift (err e) h = record { settled = λ end s. tt }
  Settles-lift panic h = record { settled = λ end s. tt }
  Settles-lift stuck h = absurd (h refl)

  pub Settles-pure : (a : A) → Settles 0 (pure a)
  Settles-pure a = record { settled = λ end s. omega arith }

  pub Settles-reading :
      (c : Context) {k : ℕ} {m : Reading A} → Settles k m → Settles k (reading c m)
  Settles-reading c {k} {m} h = record {
    settled = λ end s. Settled-in_context k (length s) c (m end s) (h.settled end s);
  }

  -- `m` of the `n` bytes were left for the second part.
  Settled-more :
      (k l n m : ℕ) (r : Result (A × Bytes)) → m + k ≤ n → Settled l m r → Settled (l + k) n r
  Settled-more k l n m (ok (a, rest)) le h = omega arith
  Settled-more k l n m (err e) le h = tt
  Settled-more k l n m panic le h = tt
  Settled-more k l n m stuck le h = absurd h

module _ {ℓ κ} {A : Type ℓ} {B : Type κ} where
  pub Settled-bind :
      (k l n : ℕ) (r : Result (A × Bytes)) (f : A × Bytes → Result (B × Bytes))
      → Settled k n r
      → ((a : A) (rest : Bytes) → length rest + k ≤ n → Settled l (length rest) (f (a, rest)))
      → Settled (l + k) n (Result.◌>>=◌ r f)
  Settled-bind k l n (ok (a, rest)) f h later =
      Settled-more k l n (length rest) (f (a, rest)) h (later a rest h)
  Settled-bind k l n (err e) f h later = tt
  Settled-bind k l n panic f h later = tt
  Settled-bind k l n stuck f h later = absurd h

  pub Settles-bind :
      {k l : ℕ} {m : Reading A} (f : A → Reading B)
      → Settles k m
      → ((a : A) → Settles l (f a))
      → Settles (l + k) (m >>= f)
  Settles-bind {k} {l} {m} f h later = record {
    settled = λ end s.
        Settled-bind k l (length s) (m end s) (λ p. f p.0 end p.1) (h.settled end s)
          λ a rest le. (later a).settled end rest;
  }

pub Settles-guard : (c : Bool) (e : Error) → Settles 0 (lift (Result.guard c e))
Settles-guard true e = record { settled = λ end s. omega arith }
Settles-guard false e = record { settled = λ end s. tt }

pub Settles-make : (n : ℕ) → Settles 0 (lift (Result.make n))
Settles-make n = record {
  settled = λ end s. elim (Bool-cases (leb n Result.max_int)) [
    | inl fits ↦ rw fits (omega arith)
    | inr over ↦ rw over tt
  ];
}

pub read_full-Settles : (n : ℕ) → Settles 0 (read_full n)
unfolding read_full
read_full-Settles n = record {
  settled = λ end s. elim (Bool-cases (leb n (length s))) [
    | inl fits ↦ rw fits (rw length-drop (omega arith))
    | inr short ↦ rw short tt
  ];
}

pub read_compressed_int-Settles : Settles 1 read_compressed_int
read_compressed_int-Settles = record {
  settled = λ end s. elim (read_compressed_int_total end s) [
    | inl ((v, rest), e) ↦ rw e (taken s v rest (read_compressed_int-Takes end s e))
    | inr (x, e, _) ↦ rw e tt
  ];
}
  where
    taken : (s : Bytes) (v : ℕ) (rest : Bytes) → Takes 10 s v rest → length rest + 1 ≤ length s
    taken s v rest t = rw t.splits (omega (arith, length-append t.used rest, t.some_used))
