-- ===== src/Prelude/Lists.antt =====
-- Lists measured and cut by native numbers, under the library's names.
use Prim.Native.Nat.{ℕ, zero, suc, ◌+◌, ◌-◌, ◌≤◌, min}
use mathlib.Core.Path.{◌≡◌, refl, ap, sym, ◌∙◌}
use mathlib.Core.Logic.{◌⊎◌, inl, inr}
use mathlib.Core.List.{List, [], ◌∷◌, ◌++◌}
use mathlib.Core.Option.{Option, none, some}
use native.Mathlib.Omega.{arith}

module _ {ℓ} {A : Type ℓ} where
  abbrev pub length : List A → ℕ
  length [] = 0
  length (x ∷ xs) = suc (length xs)

  abbrev pub take : ℕ → List A → List A
  take zero xs = []
  take (suc n) [] = []
  take (suc n) (x ∷ xs) = x ∷ take n xs

  abbrev pub drop : ℕ → List A → List A
  drop zero xs = xs
  drop (suc n) [] = []
  drop (suc n) (x ∷ xs) = drop n xs

  abbrev pub replicate : ℕ → A → List A
  replicate zero a = []
  replicate (suc n) a = a ∷ replicate n a

  abbrev pub get_elem? : List A → ℕ → Option A
  get_elem? [] i = none
  get_elem? (x ∷ xs) zero = some x
  get_elem? (x ∷ xs) (suc i) = get_elem? xs i

  abbrev pub All {κ} : (A → Type κ) → List A → Type κ
  All P [] = Unit {κ}
  All P (x ∷ xs) = P x × All P xs

  -- To split on a computed list and keep the equation.
  pub List-cases : (xs : List A) → (xs ≡ []) ⊎ ((x : A) × ((ys : List A) × (xs ≡ x ∷ ys)))
  List-cases [] = inl refl
  List-cases (x ∷ xs) = inr (x, (xs, refl))

  pub length-append : (xs ys : List A) → length (xs ++ ys) ≡ length xs + length ys
  length-append [] ys = omega arith
  length-append (x ∷ xs) ys = omega (arith, length-append xs ys)

  pub length-replicate : (n : ℕ) (a : A) → length (replicate n a) ≡ n
  length-replicate zero a = refl
  length-replicate (suc n) a = ap suc (length-replicate n a)

  pub take-append : (xs ys : List A) → take (length xs) (xs ++ ys) ≡ xs
  take-append [] ys = refl
  take-append (x ∷ xs) ys = ap (◌∷◌ x) (take-append xs ys)

  pub drop-append : (xs ys : List A) → drop (length xs) (xs ++ ys) ≡ ys
  drop-append [] ys = refl
  drop-append (x ∷ xs) ys = drop-append xs ys

  pub length-zero : (xs : List A) → length xs ≡ 0 → xs ≡ []
  length-zero [] z = refl
  length-zero (x ∷ xs) z = absurd (omega arith)

  drop-nil : (n : ℕ) → drop n [] ≡ []
  drop-nil zero = refl
  drop-nil (suc n) = refl

  pub drop-drop : (m n : ℕ) (xs : List A) → drop (m + n) xs ≡ drop n (drop m xs)
  drop-drop zero n xs = ap (λ k. drop k xs) (omega arith)
  drop-drop (suc m) n [] = drop-nil (suc m + n) ∙ sym (drop-nil n)
  drop-drop (suc m) n (x ∷ xs) =
      let one_less : suc m + n ≡ suc (m + n) = omega arith in
      ap (λ k. drop k (x ∷ xs)) one_less ∙ drop-drop m n xs

  pub take-append-drop : (n : ℕ) (xs : List A) → take n xs ++ drop n xs ≡ xs
  take-append-drop zero xs = refl
  take-append-drop (suc n) [] = refl
  take-append-drop (suc n) (x ∷ xs) = ap (◌∷◌ x) (take-append-drop n xs)

  pub take-append_more :
      (n : ℕ) (xs ys : List A) → length xs ≤ n → take n (xs ++ ys) ≡ xs ++ take (n - length xs) ys
  take-append_more n [] ys h = ap (λ m. take m ys) (omega arith)
  take-append_more zero (x ∷ xs) ys h = absurd (omega arith)
  take-append_more (suc n) (x ∷ xs) ys h =
      let fewer : n - length xs ≡ suc n - suc (length xs) = omega arith in
      ap (◌∷◌ x) (rw fewer at (take-append_more n xs ys (omega arith)))

  pub length-take : (n : ℕ) (xs : List A) → length (take n xs) ≡ min n (length xs)
  length-take zero xs = omega arith
  length-take (suc n) [] = omega arith
  length-take (suc n) (x ∷ xs) = omega (arith, length-take n xs)

  pub length-drop : (n : ℕ) (xs : List A) → length (drop n xs) ≡ length xs - n
  length-drop zero xs = omega arith
  length-drop (suc n) [] = omega arith
  length-drop (suc n) (x ∷ xs) = omega (arith, length-drop n xs)

abbrev pub flatten {ℓ} : {A : Type ℓ} → List (List A) → List A
flatten [] = []
flatten (xs ∷ xss) = xs ++ flatten xss
