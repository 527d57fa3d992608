-- ===== src/CompressedInt.antt =====
-- internal/zchunk/zchunk.go: the compressed integers, `AppendCompressedInt` and
-- `ReadCompressedInt`. A uint64 is a number below 2 ^ 64, and a byte slice a list of numbers.
pub mod Encode
pub mod RoundTrip
pub mod Bounds
pub mod Shortest
use mathlib.Core.Logic.{dite}
use mathlib.Core.WellFounded.{Acc}
use native.Mathlib.Decide.{dec_le}
use zchunk.Prelude.{
  ℕ, zero, suc, ◌+◌, ◌*◌, ◌/◌, ◌%◌, ◌^◌, ◌≤◌, ◌<◌, Bool, true, false, List, [], ◌∷◌, ◌++◌, ◌&&◌,
  bit_and, bit_or, ltb, ◌==◌, if◌then◌else◌, lt_wf, arith,
}
use zchunk.Go.Error.{eof, io_fault, truncated, overflow}
use zchunk.Go.Result.{Result, ok, err}
use zchunk.Go.Reader.{Bytes, Ending, at_end, broken, ending_error, Reading}

-- MaxCompressedIntLen
abbrev pub max_compressed_int_len : ℕ
max_compressed_int_len = 10

shift_shrinks : (v : ℕ) → 128 ≤ v → v / 128 < v
shift_shrinks v h = omega arith

-- `for v >= 0x80`: `byte(v)` is `v % 256`, and `v >>= 7` is `v / 128`.
unfoldable pub append_loop : Bytes → (v : ℕ) → Acc ◌<◌ v → Bytes
unfolding dec_le shift_shrinks
append_loop dst v (Acc.intro _ smaller) =
    dite (dec_le 0x80 v)
      (λ more.
        append_loop (dst ++ bit_and (v % 256) 0x7f ∷ []) (v / 128)
          (smaller _ (shift_shrinks v more)))
      (λ _. dst ++ bit_or (v % 256) 0x80 ∷ [])

unfoldable pub append_compressed_int : Bytes → ℕ → Bytes
append_compressed_int dst v = append_loop dst v (lt_wf.apply v)

-- `v |= uint64(b&0x7f) << (7 * i)`, in 64 bits
abbrev pub add_group : ℕ → ℕ → ℕ → ℕ
add_group v i b = bit_or v (bit_and b 0x7f * 2 ^ (7 * i) % 2 ^ 64)

-- The rounds of the loop that are left, the round number `i` and the value so far.
unfoldable pub read_loop : ℕ → ℕ → ℕ → Reading ℕ
read_loop zero i v end s = err overflow
read_loop (suc left) i v end [] = err (ending_error end truncated)
read_loop (suc left) i v end (b ∷ s) =
    let rest = read_loop left (i + 1) (add_group v i b) end s in
    if i == 9 && ltb 1 (bit_and b 0x7f)
    then err overflow
    else if bit_and b 0x80 == 0
    then rest
    else ok (add_group v i b, s)

unfoldable pub read_compressed_int : Reading ℕ
unfolding read_loop
read_compressed_int = read_loop max_compressed_int_len 0 0
