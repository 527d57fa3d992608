-- ===== src/Go/Writer.antt =====
-- An `io.Writer` as the bytes that it has taken, and what it does with the next slice.
use zchunk.Prelude.{ℕ, ◌%◌, Option, none, some, ◌++◌, length, take}
use zchunk.Go.Error.{io_fault}
use zchunk.Go.Result.{Result, ok, err, panic, stuck, u64_mod}
use zchunk.Go.Reader.{Bytes}

-- Given what it has taken so far and the next slice: `none` if it takes the whole slice, and
-- `some n` if it fails behind the slice's first `n` bytes.
abbrev pub Writer : Type 0
Writer = Bytes → Bytes → Option ℕ

-- A call that writes: what the writer holds after it, the count that the call returns (an int64, as
-- its bit pattern), and its error.
pub record Written : Type 0 where
  pub out : Bytes
  pub count : ℕ
  pub result : Result (Unit {0})

-- `n, err := w.Write(p)`; the writer reports the bytes that it took.
unfoldable pub write : Writer → Bytes → Bytes → Written
write w out p = elim (w out p) [
  | none ↦ record { out = out ++ p; count = length p % u64_mod; result = ok tt }
  | some n ↦ record {
    out = out ++ take n p;
    count = length (take n p) % u64_mod;
    result = err io_fault;
  }
]

-- `WriteTo` of a section: the section is first built in memory, and nothing is written on an error.
unfoldable pub write_built : Writer → Bytes → Result Bytes → Written
unfolding write
write_built w out (ok p) = write w out p
write_built w out (err e) = record { out = out; count = 0; result = err e }
write_built w out panic = record { out = out; count = 0; result = panic }
write_built w out stuck = record { out = out; count = 0; result = stuck }

-- A writer that never fails, such as a `bytes.Buffer`.
abbrev pub buffer : Writer
buffer out p = none
