-- ===== src/Go/Text/Numerals.antt =====
-- A printed number determines the number.
use mathlib.Core.Logic.{dite}
use mathlib.Core.WellFounded.{Acc}
use native.Mathlib.Decide.{dec_le}
use zchunk.Prelude.{
  ℕ, ◌+◌, ◌-◌, ◌*◌, ◌/◌, ◌%◌, ◌<◌, ◌≡◌, ◌∙◌, sym, ap, [], ◌∷◌, ltb, if◌then◌else◌, lt_wf, arith,
}
use zchunk.Go.Reader.{Bytes}
use zchunk.Go.Text.{
  digit, Base, decimal, hexadecimal, radix, quotient_shrinks, digits, format_decimal,
}

digit_value : ℕ → ℕ
digit_value c = if ltb c b'a' then c - b'0' else c - b'a' + 10

digit_value-digit : (d : ℕ) → d < 16 → digit_value (digit d) ≡ d
unfolding digit_value digit
digit_value-digit d h = ground arith

-- The number that digits spell behind `n`.
value : Base → ℕ → Bytes → ℕ
value b n [] = n
value b n (c ∷ s) = value b (n * radix b + digit_value c) s

last_digit : (b : Base) (n : ℕ) → n / radix b * radix b + digit_value (digit (n % radix b)) ≡ n
last_digit decimal n = rw (digit_value-digit (n % 10) (omega arith)) (omega arith)
last_digit hexadecimal n = rw (digit_value-digit (n % 16) (omega arith)) (omega arith)

only_digit : (b : Base) (n : ℕ) → n < radix b → digit_value (digit (n % radix b)) ≡ n
only_digit decimal n h = rw (digit_value-digit (n % 10) (omega arith)) (omega (arith, h))
only_digit hexadecimal n h = rw (digit_value-digit (n % 16) (omega arith)) (omega (arith, h))

value-digits :
    (b : Base) (n : ℕ) (a : Acc ◌<◌ n) (after : Bytes)
    → value b 0 (digits b n a after) ≡ value b n after
unfolding digits value
value-digits b n (Acc.intro _ smaller) after =
    let rest : Bytes = digit (n % radix b) ∷ after in
    elim (dec_le (radix b) n)
      as (λ d.
        value b 0 (
          dite d (λ more. digits b (n / radix b) (smaller _ (quotient_shrinks b n more)) rest)
            (λ _. rest))
        ≡ value b n after) [
          | yes more ↦
              value-digits b (n / radix b) (smaller _ (quotient_shrinks b n more)) rest
              ∙ ap (λ k. value b k after) (last_digit b n)
          | no few ↦ ap (λ k. value b k after) (omega (arith, only_digit b n (omega (arith, few))))
        ]

-- Two numbers that print alike in decimal are the same.
pub format_decimal-injective : (m n : ℕ) → format_decimal m ≡ format_decimal n → m ≡ n
unfolding format_decimal value
format_decimal-injective m n h =
    sym (value-digits decimal m (lt_wf.apply m) [])
    ∙ ap (value decimal 0) h
    ∙ value-digits decimal n (lt_wf.apply n) []
