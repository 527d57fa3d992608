-- ===== src/Dict/Windows.antt =====
-- The score that a sliding window keeps is that of the dmers in it.
use mathlib.Core.Path.{subst}
use zchunk.Prelude.{
  ℕ, zero, suc, ◌+◌, ◌-◌, ◌*◌, ◌%◌, ◌≤◌, ◌<◌, ◌≡◌, ◌∙◌, sym, ap, refl, false, Bool-cases, inl, inr,
  List, [], ◌∷◌, ◌++◌, ◌==◌, ==_iff, leb, le→leb, if◌then◌else◌, length, length-take, take, drop,
  append_assoc, append-nil, arith,
}
use zchunk.Go.Reader.{Bytes}
use zchunk.Dict.{
  dmer_len, u32_mod, little_endian, dmers, Counts, get, Window, enter, leave, enter_all, slide_one,
}

abbrev pub occurrences : ℕ → List ℕ → ℕ
occurrences k [] = 0
occurrences k (j ∷ js) = (if j == k then 1 else 0) + occurrences k js

-- The sum of the frequencies of the distinct dmers of a list.
unfoldable pub distinct_sum : Counts → List ℕ → ℕ
distinct_sum freq [] = 0
distinct_sum freq (k ∷ ks) =
    (if occurrences k ks == 0 then get freq k else 0) + distinct_sum freq ks

-- The window counts the dmers `ks`, and has their score.
pub record Scores (freq : Counts) (w : Window) (ks : List ℕ) : Type 0 where
  pub counts : (k : ℕ) → get w.active k ≡ occurrences k ks
  pub scored : w.score ≡ distinct_sum freq ks % u32_mod

occurrences-concat :
    (j k : ℕ) (ks : List ℕ)
    → occurrences j (ks ++ k ∷ []) ≡ occurrences j ks + (if k == j then 1 else 0)
occurrences-concat j k [] = omega arith
occurrences-concat j k (h ∷ ks) = omega (arith, occurrences-concat j k ks)

distinct_sum-concat :
    (freq : Counts) (k : ℕ) (ks : List ℕ)
    → distinct_sum freq (ks ++ k ∷ [])
      ≡ distinct_sum freq ks + (if occurrences k ks == 0 then get freq k else 0)
unfolding distinct_sum
distinct_sum-concat freq k [] = omega arith
distinct_sum-concat freq k (h ∷ ks) =
    let more = occurrences-concat h k ks in
    let ih = distinct_sum-concat freq k ks in
    elim (Bool-cases (h == k)) [
      | inl same ↦
          let e : h ≡ k = (==_iff h k).0 same in
          ground (arith, more, ih, e, ap (get freq) e, ap (λ x. occurrences x ks) e)
      | inr differ ↦ ground (arith, more, ih, differ)
    ]

enter-Scores :
    (freq : Counts) (w : Window) (ks : List ℕ) (k : ℕ)
    → Scores freq w ks
    → Scores freq (enter freq w k) (ks ++ k ∷ [])
unfolding enter get
enter-Scores freq w ks k s = record {
  counts = λ j. elim (Bool-cases (k == j)) [
    | inl same ↦
        let e : k ≡ j = (==_iff k j).0 same in
        ground (arith, e, ap (get w.active) e, s.counts j, occurrences-concat j k ks)
    | inr differ ↦ ground (arith, differ, s.counts j, occurrences-concat j k ks)
  ];
  scored = ground (arith, s.counts k, s.scored, distinct_sum-concat freq k ks);
}

leave-Scores :
    (freq : Counts) (w : Window) (ks : List ℕ) (k : ℕ)
    → Scores freq w (k ∷ ks)
    → Scores freq (leave freq w k) ks
unfolding leave get distinct_sum
leave-Scores freq w ks k s = record {
  counts = λ j. elim (Bool-cases (k == j)) [
    | inl same ↦
        let e : k ≡ j = (==_iff k j).0 same in ground (arith, e, ap (get w.active) e, s.counts j)
    | inr differ ↦ ground (arith, differ, s.counts j)
  ];
  scored = ground (arith, s.counts k, s.scored);
}

pub enter_all-Scores :
    (freq : Counts) (w : Window) (ks js : List ℕ)
    → Scores freq w ks
    → Scores freq (enter_all freq w js) (ks ++ js)
unfolding enter_all
enter_all-Scores freq w ks [] s = rw append-nil s
enter_all-Scores freq w ks (j ∷ js) s =
    subst (Scores freq (enter_all freq (enter freq w j) js)) (append_assoc ks (j ∷ []) js)
      (enter_all-Scores freq (enter freq w j) (ks ++ j ∷ []) js (enter-Scores freq w ks j s))

little_endian-take : (n m : ℕ) (s : Bytes) → n ≤ m → little_endian n (take m s) ≡ little_endian n s
unfolding little_endian
little_endian-take zero m s h = refl
little_endian-take (suc n) zero s h = ground arith
little_endian-take (suc n) (suc m) [] h = refl
little_endian-take (suc n) (suc m) (b ∷ s) h =
    ap (λ x. b + 256 * x) (little_endian-take n m s (omega (arith, h)))

dmers_short : (s : Bytes) → length s < dmer_len → dmers s ≡ []
unfolding dmers
dmers_short [] h = refl
dmers_short (b ∷ s) h =
    let short : leb dmer_len (length (b ∷ s)) ≡ false = ground (arith, h) in rw short refl

dmers_long :
    (b : ℕ) (s : Bytes)
    → dmer_len ≤ length (b ∷ s)
    → dmers (b ∷ s) ≡ little_endian dmer_len (b ∷ s) ∷ dmers s
unfolding dmers
dmers_long b s h = rw (le→leb dmer_len (length (b ∷ s)) h) refl

-- The first dmer of a window, and the others.
pub dmers-take_first :
    (b : ℕ) (s : Bytes) (j : ℕ)
    → j + 7 ≤ length s
    → dmers (take (j + 8) (b ∷ s)) ≡ little_endian dmer_len (b ∷ s) ∷ dmers (take (j + 7) s)
dmers-take_first b s j inside =
    let one_more : j + 8 ≡ suc (j + 7) = omega arith in
    ap (λ n. dmers (take n (b ∷ s))) one_more
    ∙ dmers_long b (take (j + 7) s) (omega (arith, length-take (j + 7) s, inside))
    ∙ ap (λ x. x ∷ dmers (take (j + 7) s))
        (little_endian-take dmer_len (suc (j + 7)) (b ∷ s) (omega arith))

-- The last dmer of a window, and the others.
pub dmers-take_last :
    (j : ℕ) (s : Bytes)
    → j + 8 ≤ length s
    → dmers (take (j + 8) s) ≡ dmers (take (j + 7) s) ++ little_endian dmer_len (drop j s) ∷ []
dmers-take_last j [] inside = ground arith
dmers-take_last zero (b ∷ s) inside =
    let long : 7 ≤ length s = omega (arith, inside) in
    dmers-take_first b s 0 (omega (arith, long))
    ∙ ap (λ l. little_endian dmer_len (b ∷ s) ∷ l)
        (dmers_short (take 7 s) (omega (arith, length-take 7 s)))
    ∙ ap (λ l. l ++ little_endian dmer_len (b ∷ s) ∷ [])
        (sym (dmers_short (take 7 (b ∷ s)) (omega (arith, length-take 7 (b ∷ s)))))
dmers-take_last (suc j) (b ∷ s) inside =
    let shift : suc j + 7 ≡ j + 8 = omega arith in
    dmers-take_first b s (suc j) (omega (arith, inside))
    ∙ ap (λ n. little_endian dmer_len (b ∷ s) ∷ dmers (take n s)) shift
    ∙ ap (λ l. little_endian dmer_len (b ∷ s) ∷ l) (dmers-take_last j s (omega (arith, inside)))
    ∙ ap (λ l. l ++ little_endian dmer_len (drop j s) ∷ [])
        (sym (dmers-take_first b s j (omega (arith, inside)))
          ∙ ap (λ n. dmers (take n (b ∷ s))) (sym shift))

-- A window of `j + 8` bytes moves one byte on.
pub slide_one-Scores :
    (freq : Counts) (j : ℕ) (window : Window) (b : ℕ) (s : Bytes)
    → j + 8 ≤ length s
    → Scores freq window (dmers (take (j + 8) (b ∷ s)))
    → Scores freq (slide_one freq (j + 8) window b s) (dmers (take (j + 8) s))
unfolding slide_one
slide_one-Scores freq j window b s inside held =
    let first = dmers-take_first b s j (omega (arith, inside)) in
    let place : j + 8 - dmer_len ≡ j = omega arith in
    let left =
      leave-Scores freq window (dmers (take (j + 7) s)) (little_endian dmer_len (b ∷ s))
        (subst (Scores freq window) first held) in
    let entered = enter-Scores freq _ _ (little_endian dmer_len (drop j s)) left in
    rw (place, dmers-take_last j s inside) entered
