-- ===== src/Go/Text.antt =====
-- Text as its bytes: string literals, which are ASCII in this code, and what the verbs %d, %x, %#x
-- and %t of package fmt print.
pub mod Numerals
use Prim.Native.Char.{code}
use Prim.Native.String.{String}
use mathlib.Core.Logic.{dite}
use mathlib.Core.WellFounded.{Acc}
use native.Mathlib.Decide.{dec_le}
use zchunk.Prelude.{
  ℕ, ◌+◌, ◌-◌, ◌/◌, ◌%◌, ◌≤◌, ◌<◌, Bool, true, false, [], ◌∷◌, ◌++◌, ltb, if◌then◌else◌, lt_wf,
  arith,
}
use zchunk.Go.Reader.{Bytes}

abbrev pub codes : String → Bytes
codes String.[] = []
codes (String.◌∷◌ c s) = code c ∷ codes s

-- 0 to 9, then a to f
unfoldable pub digit : ℕ → ℕ
digit d = if ltb d 10 then b'0' + d else b'a' + (d - 10)

-- The bases in use.
pub data Base : Type 0 where
  decimal hexadecimal : Base

abbrev pub radix : Base → ℕ
radix decimal = 10
radix hexadecimal = 16

pub quotient_shrinks : (b : Base) (n : ℕ) → radix b ≤ n → n / radix b < n
quotient_shrinks decimal n h = omega arith
quotient_shrinks hexadecimal n h = omega arith

-- The digits of `n` in front of those that are there already.
unfoldable pub digits : Base → (n : ℕ) → Acc ◌<◌ n → Bytes → Bytes
unfolding digit dec_le quotient_shrinks
digits b n (Acc.intro _ smaller) after =
    let rest = digit (n % radix b) ∷ after in
    dite (dec_le (radix b) n)
      (λ more. digits b (n / radix b) (smaller _ (quotient_shrinks b n more)) rest) (λ _. rest)

-- %d of a number that is not negative
unfoldable pub format_decimal : ℕ → Bytes
unfolding digits
format_decimal n = digits decimal n (lt_wf.apply n) []

-- %#x of a number
unfoldable pub format_hexadecimal : ℕ → Bytes
unfolding digits
format_hexadecimal n = b'0' ∷ b'x' ∷ digits hexadecimal n (lt_wf.apply n) []

-- %x of a byte slice
unfoldable pub format_bytes : Bytes → Bytes
unfolding digit
format_bytes [] = []
format_bytes (b ∷ bs) = digit (b / 16) ∷ digit (b % 16) ∷ format_bytes bs

-- %t
unfoldable pub format_bool : Bool → Bytes
format_bool true = codes "true"
format_bool false = codes "false"
