-- ===== src/CompressedInt/RoundTrip.antt =====
-- `read_compressed_int` reads back what `append_compressed_int` wrote.
use native.Mathlib.Decide.{dec_le}
use native.Mathlib.Nat.{div-add-mod, mod-eq_of_lt, mod-lt}
use native.Mathlib.Numerals.{towards_suc}
use zchunk.Prelude.{
  ℕ, zero, suc, ◌+◌, ◌*◌, ◌/◌, ◌%◌, ◌^◌, ◌≤◌, ◌<◌, ◌≡◌, refl, ◌∙◌, [], ◌∷◌, ◌++◌, ap, arith,
}
use zchunk.Prelude.Bits.{bit_and_low127, bit_and_top, bit_or_fields}
use zchunk.Go.Result.{ok}
use zchunk.Go.Reader.{Bytes, Ending, Reads}
use zchunk.CompressedInt.{append_compressed_int, add_group, read_loop, read_compressed_int}
use zchunk.CompressedInt.Encode.{encoding_last, encoding_more}

-- Where the value still fits 64 bits, `|=` is an addition.
pub add_group_fits :
    (v i b : ℕ)
    → v < 2 ^ (7 * i)
    → v + b % 128 * 2 ^ (7 * i) < 2 ^ 64
    → add_group v i b ≡ v + b % 128 * 2 ^ (7 * i)
add_group_fits v i b low fits =
    rw (bit_and_low127 b, group_fits) (bit_or_fields (7 * i) v (b % 128) low)
  where
    group_fits : b % 128 * 2 ^ (7 * i) % 2 ^ 64 ≡ b % 128 * 2 ^ (7 * i)
    group_fits = mod-eq_of_lt (omega arith)

-- The tenth group has one bit.
tenth_group : (i v g : ℕ) → i ≡ 9 → v + g * 2 ^ (7 * i) < 2 ^ 64 → g ≤ 1
tenth_group i v g e fits = let fits' : v + g * 2 ^ (7 * 9) < 2 ^ 64 = rw e at fits in omega arith

-- One round on a last byte `g + 128`, and on an inner byte `g`.
read_loop_last :
    (left i v g : ℕ) (end : Ending) (rest : Bytes)
    → g < 128
    → v < 2 ^ (7 * i)
    → v + g * 2 ^ (7 * i) < 2 ^ 64
    → read_loop (suc left) i v end ((g + 128) ∷ rest) ≡ ok (v + g * 2 ^ (7 * i), rest)
unfolding read_loop
read_loop_last left i v g end rest hg low fits =
    let group : (g + 128) % 128 ≡ g = omega arith in
    let added : add_group v i (g + 128) ≡ v + g * 2 ^ (7 * i) =
      rw group at (add_group_fits v i (g + 128) low (rw group fits)) in
    ground (arith, added, bit_and_low127 (g + 128), bit_and_top (g + 128), tenth_group i v g)

read_loop_more :
    (left i v g : ℕ) (end : Ending) (rest : Bytes)
    → i < 9
    → g < 128
    → v < 2 ^ (7 * i)
    → v + g * 2 ^ (7 * i) < 2 ^ 64
    → read_loop (suc left) i v end (g ∷ rest)
      ≡ read_loop left (i + 1) (v + g * 2 ^ (7 * i)) end rest
unfolding read_loop
read_loop_more left i v g end rest hi hg low fits =
    let group : g % 128 ≡ g = omega arith in
    let added : add_group v i g ≡ v + g * 2 ^ (7 * i) =
      rw group at (add_group_fits v i g low (rw group fits)) in
    ground (arith, added, bit_and_top g)

pub pow_seven : (i : ℕ) → 2 ^ (7 * (i + 1)) ≡ 128 * 2 ^ (7 * i)
pow_seven i = let e : 7 * (i + 1) ≡ 7 * i + 7 = omega arith in rw e (simp towards_suc (omega arith))

-- The low group of `v` and the rest of it, both in place at bit `7 * i`.
split_group :
    (i acc v : ℕ)
    → acc + v % 128 * 2 ^ (7 * i) + v / 128 * 2 ^ (7 * (i + 1)) ≡ acc + v * 2 ^ (7 * i)
split_group i acc v = omega (
  arith,
  ap (λ (t : ℕ). t * 2 ^ (7 * i)) (div-add-mod v 128),
  ap (λ (t : ℕ). v / 128 * t) (pow_seven i),
)

pub group_below :
    (i acc v : ℕ) → acc < 2 ^ (7 * i) → acc + v % 128 * 2 ^ (7 * i) < 2 ^ (7 * (i + 1))
group_below i acc v low = rw (pow_seven i) (grind (arith, mod-lt))

read_loop-encoding :
    (left i acc v : ℕ) (end : Ending) (rest : Bytes)
    → i + left ≡ 9
    → acc < 2 ^ (7 * i)
    → acc + v * 2 ^ (7 * i) < 2 ^ 64
    → read_loop (suc left) i acc end (append_compressed_int [] v ++ rest)
      ≡ ok (acc + v * 2 ^ (7 * i), rest)
read_loop-encoding zero i acc v end rest e low fits =
    let small : v ≤ 1 = tenth_group i acc v (omega arith) fits in
    rw (encoding_last v (omega arith)) (read_loop_last 0 i acc v end rest (omega arith) low fits)
read_loop-encoding (suc left) i acc v end rest e low fits = elim (dec_le 0x80 v) [
  | yes more ↦
      let fits' : acc + v % 128 * 2 ^ (7 * i) + v / 128 * 2 ^ (7 * (i + 1)) < 2 ^ 64 =
        rw (split_group i acc v) fits in
      rw (encoding_more v more) (
        read_loop_more (suc left) i acc (v % 128) end _ (omega arith) (omega arith) low
          (omega arith)
        ∙ read_loop-encoding left (i + 1) (acc + v % 128 * 2 ^ (7 * i)) (v / 128) end rest
            (omega arith) (group_below i acc v low) fits'
        ∙ ap (λ t. ok (t, rest)) (split_group i acc v))
  | no done ↦
      rw (encoding_last v (omega arith))
        (read_loop_last (suc left) i acc v end rest (omega arith) low fits)
]

-- `ReadCompressedInt` takes exactly the bytes that `AppendCompressedInt` wrote for a uint64, and
-- returns that uint64, whatever follows.
pub read_compressed_int-append_compressed_int :
    (v : ℕ) → v < 2 ^ 64 → Reads read_compressed_int (append_compressed_int [] v) v
unfolding read_compressed_int
read_compressed_int-append_compressed_int v h = record {
  run = λ end rest.
      read_loop-encoding 9 0 0 v end rest refl (omega arith) (omega arith)
      ∙ ap (λ t. ok (t, rest)) (omega arith);
}
