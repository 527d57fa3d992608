-- ===== src/CompressedInt/Bounds.antt =====
-- `read_compressed_int` on any input, well formed or not.
use native.Mathlib.Decide.{dec_lt}
use native.Mathlib.Nat.{pow-le-pow_right}
use mathlib.Core.Path.{sym, ◌∙◌, subst₂}
use zchunk.Prelude.{
  ℕ, zero, suc, ◌+◌, ◌*◌, ◌%◌, ◌^◌, ◌≤◌, ◌<◌, ◌≡◌, refl, ap, [], ◌∷◌, ◌++◌, ◌⊎◌, inl, inr, ◌&&◌,
  Bool-cases, bit_and, ltb, ◌==◌, length, arith,
}
use zchunk.Prelude.Bits.{bit_and_low127}
use zchunk.Go.Error.{Error, io_fault, truncated, overflow}
use zchunk.Go.Result.{ok, err}
use zchunk.Go.Reader.{Bytes, Ending, at_end, broken}
use zchunk.CompressedInt.{add_group, read_loop, read_compressed_int}
use zchunk.CompressedInt.RoundTrip.{add_group_fits, group_below}

-- A value that fits 64 bits, and the 1 to `left` bytes in front of the rest that hold it.
pub record Takes (left : ℕ) (s : Bytes) (v : ℕ) (rest : Bytes) : Type 0 where
  pub fits : v < 2 ^ 64
  pub used : Bytes
  pub splits : s ≡ used ++ rest
  pub some_used : 1 ≤ length used
  pub few_used : length used ≤ left

pub group_fits :
    (i v b : ℕ)
    → i ≤ 9
    → v < 2 ^ (7 * i)
    → (i ≡ 9 → b % 128 ≤ 1)
    → v + b % 128 * 2 ^ (7 * i) < 2 ^ 64
group_fits i v b hi low last = elim (dec_lt i 9) [
  | yes inner ↦
      let top : 2 ^ (7 * (i + 1)) ≤ 2 ^ 63 =
        pow-le-pow_right (omega arith) {j = 63} (omega arith) in
      omega (arith, group_below i v b low, top)
  | no outer ↦
      let e : i ≡ 9 = omega arith in
      let low' : v < 2 ^ (7 * 9) = rw e at low in
      let bit : b % 128 ≤ 1 = last e in rw e (omega arith)
]

Takes-one : (left b v : ℕ) (s : Bytes) → v < 2 ^ 64 → Takes (suc left) (b ∷ s) v s
Takes-one left b v s h = record {
  fits = h;
  used = b ∷ [];
  splits = refl;
  some_used = omega arith;
  few_used = omega arith;
}

Takes-cons :
    {left v : ℕ} {s rest : Bytes} (b : ℕ) → Takes left s v rest → Takes (suc left) (b ∷ s) v rest
Takes-cons b t = record {
  fits = t.fits;
  used = b ∷ t.used;
  splits = ap (◌∷◌ b) t.splits;
  some_used = omega arith;
  few_used = omega (arith, t.few_used);
}

-- What one round does with a byte: it fails, goes on with the next byte, or returns.
pub read_loop_round :
    (left i v : ℕ) (end : Ending) (b : ℕ) (s : Bytes)
    → (read_loop (suc left) i v end (b ∷ s) ≡ err overflow)
      ⊎ ((i ≡ 9 → b % 128 ≤ 1)
          × ((read_loop (suc left) i v end (b ∷ s) ≡ read_loop left (i + 1) (add_group v i b) end s)
              ⊎ (read_loop (suc left) i v end (b ∷ s) ≡ ok (add_group v i b, s))))
unfolding read_loop
read_loop_round left i v end b s = elim (Bool-cases (i == 9 && ltb 1 (bit_and b 0x7f))) [
  | inl wide ↦ inl (rw wide)
  | inr narrow ↦
      let last : i ≡ 9 → b % 128 ≤ 1 = λ e. ground (arith, bit_and_low127 b) in
      inr (
        last,
        elim (Bool-cases (bit_and b 0x80 == 0)) [
          | inl inner ↦ inl (rw (narrow, inner))
          | inr final ↦ inr (rw (narrow, final))
        ],
      )
]

read_loop-Takes :
    (left i v : ℕ) (end : Ending) (s : Bytes) {r : ℕ} {rest : Bytes}
    → i + left ≡ 10
    → v < 2 ^ (7 * i)
    → read_loop left i v end s ≡ ok (r, rest)
    → Takes left s r rest
read_loop-Takes zero i v end s e low h = unfold read_loop in cc
read_loop-Takes (suc left) i v end [] e low h = unfold read_loop in cc
read_loop-Takes (suc left) i v end (b ∷ s) {r} {rest} e low h =
    elim (read_loop_round left i v end b s) [
      | inl wide ↦ cc
      | inr (last, inl more) ↦
          let fits = group_fits i v b (omega arith) low last in
          let added = add_group_fits v i b low fits in
          let below : add_group v i b < 2 ^ (7 * (i + 1)) = rw added (group_below i v b low) in
          Takes-cons b (
            read_loop-Takes left (i + 1) (add_group v i b) end s (omega arith) below (sym more ∙ h))
      | inr (last, inr final) ↦
          let fits = group_fits i v b (omega arith) low last in
          let done : add_group v i b < 2 ^ 64 = rw (add_group_fits v i b low fits) fits in
          let same : (add_group v i b ≡ r) × (s ≡ rest) = ground (arith, final, h) in
          subst₂ (λ x y. Takes (suc left) (b ∷ s) x y) same.0 same.1
            (Takes-one left b (add_group v i b) s done)
    ]

-- A successful read returns a uint64, takes 1 to 10 bytes, and leaves the rest as it was.
pub read_compressed_int-Takes :
    (end : Ending) (s : Bytes) {v : ℕ} {rest : Bytes}
    → read_compressed_int end s ≡ ok (v, rest)
    → Takes 10 s v rest
unfolding read_compressed_int
read_compressed_int-Takes end s h = read_loop-Takes 10 0 0 end s refl (omega arith) h

-- The only other outcomes are the three errors; the input alone decides on `overflow`.
pub data Refusal (end : Ending) : Error → Type 0 where
  too_wide : Refusal end overflow
  too_short : end ≡ at_end → Refusal end truncated
  failed : end ≡ broken → Refusal end io_fault

read_loop_total :
    (left i v : ℕ) (end : Ending) (s : Bytes)
    → ((p : ℕ × Bytes) × (read_loop left i v end s ≡ ok p))
      ⊎ ((e : Error) × (read_loop left i v end s ≡ err e) × Refusal end e)
read_loop_total zero i v end s = inr (overflow, unfold read_loop in refl, too_wide)
read_loop_total (suc left) i v at_end [] = inr (truncated, unfold read_loop in refl, too_short refl)
read_loop_total (suc left) i v broken [] = inr (io_fault, unfold read_loop in refl, failed refl)
read_loop_total (suc left) i v end (b ∷ s) = elim (read_loop_round left i v end b s) [
  | inl wide ↦ inr (overflow, wide, too_wide)
  | inr (last, inl more) ↦ rw more (read_loop_total left (i + 1) (add_group v i b) end s)
  | inr (last, inr final) ↦ inl ((add_group v i b, s), final)
]

-- `ReadCompressedInt` returns on every input: a value, or `ErrOverflow`, or `ErrTruncated` if
-- the reader ends with io.EOF, or the reader's own error if it ends with another.
pub read_compressed_int_total :
    (end : Ending) (s : Bytes)
    → ((p : ℕ × Bytes) × (read_compressed_int end s ≡ ok p))
      ⊎ ((e : Error) × (read_compressed_int end s ≡ err e) × Refusal end e)
unfolding read_compressed_int
read_compressed_int_total end s = read_loop_total 10 0 0 end s
