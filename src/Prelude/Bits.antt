-- ===== src/Prelude/Bits.antt =====
-- Laws of the bit operations, from the digit recursion that they stand for.
use Prim.Native.Nat.{
  ℕ, zero, suc, ◌+◌, ◌-◌, ◌*◌, ◌/◌, ◌%◌, ◌^◌, ◌≤◌, ◌<◌, min, max, digits, bit_and, bit_or,
  bit_and-bitwise, bit_or-bitwise,
}
use mathlib.Core.Path.{◌≡◌, refl, ap, sym, ◌∙◌}
use native.Mathlib.Omega.{arith}
use native.Mathlib.Nat.{pow-suc}

module _ (rest : ℕ → ℕ) (op : ℕ → ℕ → ℕ) where
  -- One more round of fuel changes nothing once there is enough of it.
  one_more : (fuel x y : ℕ) → x ≤ fuel → digits rest op (suc fuel) x y ≡ digits rest op fuel x y
  one_more zero (suc x) y h = absurd (omega arith)
  one_more zero zero y h = refl
  one_more (suc fuel) zero y h = refl
  one_more (suc fuel) (suc x) y h = omega (arith, one_more fuel (suc x / 2) (y / 2) (omega arith))

  spare :
      (extra fuel x y : ℕ) → x ≤ fuel → digits rest op (extra + fuel) x y ≡ digits rest op fuel x y
  spare zero fuel x y h = ap (λ n. digits rest op n x y) (omega arith)
  spare (suc extra) fuel x y h =
      let above : suc extra + fuel ≡ suc (extra + fuel) = omega arith in
      ap (λ n. digits rest op n x y) above
      ∙ one_more (extra + fuel) x y (omega arith)
      ∙ spare extra fuel x y h

  -- The rounds that halving a number leaves over.
  halved : (x y : ℕ) → digits rest op x (suc x / 2) y ≡ digits rest op (suc x / 2) (suc x / 2) y
  halved x y =
      let parts : x - suc x / 2 + suc x / 2 ≡ x = omega arith in
      ap (λ n. digits rest op n (suc x / 2) y) (sym parts)
      ∙ spare (x - suc x / 2) (suc x / 2) (suc x / 2) y (omega arith)

-- Each operation takes the lowest binary digits off.
and_low : (x y : ℕ) → bit_and x y ≡ min (x % 2) (y % 2) + bit_and (x / 2) (y / 2) * 2
and_low zero y = omega (arith, bit_and-bitwise 0 y, bit_and-bitwise 0 (y / 2))
and_low (suc x) y =
    let whole = bit_and-bitwise (suc x) y in
    let half = bit_and-bitwise (suc x / 2) (y / 2) in
    omega (arith, whole, half, halved (λ n. zero) min x (y / 2))

or_low : (x y : ℕ) → bit_or x y ≡ max (x % 2) (y % 2) + bit_or (x / 2) (y / 2) * 2
or_low zero y = omega (arith, bit_or-bitwise 0 y, bit_or-bitwise 0 (y / 2))
or_low (suc x) y =
    let whole = bit_or-bitwise (suc x) y in
    let half = bit_or-bitwise (suc x / 2) (y / 2) in
    omega (arith, whole, half, halved (λ n. n) max x (y / 2))

no_digits : (fuel x : ℕ) → digits (λ n. zero) min fuel x 0 ≡ 0
no_digits zero x = refl
no_digits (suc fuel) zero = refl
no_digits (suc fuel) (suc x) = omega (arith, no_digits fuel (suc x / 2))

and_none : (x : ℕ) → bit_and x 0 ≡ 0
and_none x = bit_and-bitwise x 0 ∙ no_digits x x

pub bit_and-one : (a : ℕ) → bit_and a 1 ≡ a % 2
bit_and-one a = omega (arith, and_low a 1, and_none (a / 2))

pub bit_and_two : (a : ℕ) → bit_and a 2 ≡ a / 2 % 2 * 2
bit_and_two a = omega (arith, and_low a 2, bit_and-one (a / 2))

pub bit_and_four : (a : ℕ) → bit_and a 4 ≡ a / 4 % 2 * 4
bit_and_four a = omega (arith, and_low a 4, bit_and_two (a / 2))

pub bit_and_low7 : (a : ℕ) → bit_and a 7 ≡ a % 8
bit_and_low7 a = omega (arith, and_low a 7, and_low (a / 2) 3, bit_and-one (a / 2 / 2))

-- The low seven bits of a byte, and its top bit.
pub bit_and_low127 : (a : ℕ) → bit_and a 0x7f ≡ a % 128
bit_and_low127 a = omega (
  arith,
  and_low a 127,
  and_low (a / 2) 63,
  and_low (a / 2 / 2) 31,
  and_low (a / 2 / 2 / 2) 15,
  bit_and_low7 (a / 2 / 2 / 2 / 2),
)

pub bit_and_top : (a : ℕ) → bit_and a 0x80 ≡ a / 128 % 2 * 128
bit_and_top a = omega (
  arith,
  and_low a 128,
  and_low (a / 2) 64,
  and_low (a / 2 / 2) 32,
  and_low (a / 2 / 2 / 2) 16,
  and_low (a / 2 / 2 / 2 / 2) 8,
  bit_and_four (a / 2 / 2 / 2 / 2 / 2),
)

-- Disjoint fields: the low `k` bits are those of `r`, and the rest those of `q`.
pub bit_or_fields : (k r q : ℕ) → r < 2 ^ k → bit_or r (q * 2 ^ k) ≡ r + q * 2 ^ k
bit_or_fields zero zero q h = ground (arith, bit_or-bitwise 0 (q * 2 ^ 0), bit_or-bitwise 0 q)
bit_or_fields zero (suc r) q h = absurd (omega arith)
bit_or_fields (suc k) r q h = ground (
  arith,
  or_low r (q * 2 ^ suc k),
  ap (λ (t : ℕ). q * t) (pow-suc 2 k),
  pow-suc 2 k,
  bit_or_fields k (r / 2) q (omega arith),
)

pub bit_or_top : (a : ℕ) → a < 128 → bit_or a 0x80 ≡ a + 128
bit_or_top a h = bit_or_fields 7 a 1 h
