-- ===== src/Go/Reader.antt =====
-- An `io.Reader` as the bytes that are left in it and what it answers behind them, and the
-- functions of package io that the parsers call. Reading is a monad over the bytes left.
use mathlib.Core.Path.{subst}
use zchunk.Prelude.{
  ℕ, ◌≤◌, Bool, true, ◌≡◌, refl, List, [], ◌∷◌, ◌++◌, append_assoc, leb, if◌then◌else◌, length,
  take, drop, take-append, drop-append, length-append, le→leb, arith,
}
use zchunk.Go.Error.{Context, Error, eof, unexpected_eof, io_fault}
use zchunk.Go.Result
use zchunk.Go.Result.{Result, ok, err, panic, stuck}

abbrev pub Bytes : Type 0
Bytes = List ℕ

-- Behind its last byte a reader answers io.EOF, or fails in another way.
pub data Ending : Type 0 where
  at_end broken : Ending

-- The answer of a reader with no byte left, in the middle of a value or before it.
abbrev pub ending_error : Ending → Error → Error
ending_error at_end e = e
ending_error broken e = io_fault

abbrev pub Reading {ℓ} : Type ℓ → Type ℓ
Reading A = Ending → Bytes → Result (A × Bytes)

module _ {ℓ} {A : Type ℓ} where
  abbrev pub pure : A → Reading A
  pure a end s = ok (a, s)

  -- a step that reads nothing
  abbrev pub lift : Result A → Reading A
  lift r end s = Result.◌>>=◌ r (λ a. ok (a, s))

  -- `fmt.Errorf("zchunk: read …: %w", err)`
  abbrev pub reading : Context → Reading A → Reading A
  reading c m end s = Result.in_context c (m end s)

module _ {ℓ κ} {A : Type ℓ} {B : Type κ} where
  infixl 5 ◌>>=◌
  abbrev pub ◌>>=◌ : Reading A → (A → Reading B) → Reading B
  ◌>>=◌ m f end s = Result.◌>>=◌ (m end s) (λ p. f p.0 end p.1)

infixl 5 ◌>>◌
abbrev pub ◌>>◌ {ℓ} : {B : Type ℓ} → Reading (Unit {0}) → Reading B → Reading B
m >> k = m >>= λ _. k

-- What `io.ReadFull` reports when fewer bytes are left than it wants.
abbrev short_error : Ending → Bytes → Error
short_error end [] = ending_error end eof
short_error end (b ∷ s) = ending_error end unexpected_eof

-- `io.ReadFull` into a slice of `n` bytes
unfoldable pub read_full : ℕ → Reading Bytes
read_full n end s = if leb n (length s) then ok (take n s, drop n s) else err (short_error end s)

-- The reader takes exactly `bs` and returns `a`, whatever follows.
pub record Reads {ℓ} {A : Type ℓ} (m : Reading A) (bs : Bytes) (a : A) : Type ℓ where
  pub run : (end : Ending) (rest : Bytes) → m end (bs ++ rest) ≡ ok (a, rest)

module _ {ℓ} {A : Type ℓ} where
  pub Reads-pure : (a : A) → Reads (pure a) [] a
  Reads-pure a = record { run = λ end rest. refl }

  pub Reads-lift : (r : Result A) {a : A} → r ≡ ok a → Reads (lift r) [] a
  Reads-lift r h = record { run = λ end rest. rw h }

  pub Reads-reading :
      (c : Context) {m : Reading A} {bs : Bytes} {a : A} → Reads m bs a → Reads (reading c m) bs a
  Reads-reading c h = record { run = λ end rest. rw (h.run end rest) }

pub Reads-bytes {ℓ} :
    {A : Type ℓ} {m : Reading A} {bs cs : Bytes} {a : A} → bs ≡ cs → Reads m bs a → Reads m cs a
Reads-bytes {m} {a} e h = subst (λ s. Reads m s a) e h

pub Reads-guard : (c : Bool) (e : Error) → c ≡ true → Reads (lift (Result.guard c e)) [] tt
Reads-guard c e h = Reads-lift (Result.guard c e) (Result.guard-true c e h)

pub Reads-make : (n : ℕ) → n ≤ Result.max_int → Reads (lift (Result.make n)) [] tt
Reads-make n h = Reads-lift (Result.make n) (Result.make_fits n h)

module _ {ℓ κ} {A : Type ℓ} {B : Type κ} where
  pub Reads-bind :
      {m : Reading A} (f : A → Reading B) {a : A} {b : B} {bs cs : Bytes}
      → Reads m bs a
      → Reads (f a) cs b
      → Reads (m >>= f) (bs ++ cs) b
  Reads-bind f {bs} {cs} h k = record {
    run = λ end rest. rw append_assoc (rw (h.run end (cs ++ rest)) (k.run end rest));
  }

  -- A step that takes no bytes.
  pub Reads-skip :
      {m : Reading A} (f : A → Reading B) {a : A} {b : B} {cs : Bytes}
      → Reads m [] a
      → Reads (f a) cs b
      → Reads (m >>= f) cs b
  Reads-skip f {cs} h k = record { run = λ end rest. rw (h.run end (cs ++ rest)) (k.run end rest) }

-- The last step of a parser returns what it built.
pub Reads-last {ℓ κ} :
    {A : Type ℓ} {B : Type κ} {m : Reading A} {a : A} {bs : Bytes} (g : A → B)
    → Reads m bs a
    → Reads (m >>= λ x. pure (g x)) bs (g a)
Reads-last g h = record { run = λ end rest. rw (h.run end rest) }

pub read_full-Reads : (bs : Bytes) {n : ℕ} → length bs ≡ n → Reads (read_full n) bs bs
unfolding read_full
read_full-Reads bs e = record {
  run = λ end rest. rw (← e) (
      rw (
        le→leb (length bs) (length (bs ++ rest)) (omega (arith, length-append bs rest)),
        take-append,
        drop-append,
      ));
}
