-- ===== src/Dict/Maximal.antt =====
-- `bestSegment` finds a window of the highest score.
use mathlib.Core.Path.{subst}
use zchunk.Prelude.{
  ℕ, zero, suc, ◌+◌, ◌-◌, ◌%◌, ◌≤◌, ◌<◌, ◌≡◌, ◌∙◌, sym, ap, refl, Bool-cases, ◌⊎◌, inl, inr, List,
  [], ◌∷◌, ltb, leb, leb→le, length, take, drop, arith,
}
use zchunk.Go.Reader.{Bytes}
use zchunk.Dict.{
  dmer_len, u32_mod, dmers, Counts, get, Window, enter_all, Best, no_segment, consider, slide_one,
  slide, window_length, best_in, best_segment,
}
use zchunk.Dict.Windows.{distinct_sum, Scores, enter_all-Scores, slide_one-Scores}

-- The score of a segment: the sum of the frequencies of its distinct dmers, as a uint32.
abbrev pub value : Counts → Bytes → ℕ
value freq segment = distinct_sum freq (dmers segment) % u32_mod

-- A window of length `w` that lies in `s`.
abbrev pub Inside : ℕ → Bytes → Bytes → Type 0
Inside w s segment = (i : ℕ) × (i + w ≤ length s) × (segment ≡ take w (drop i s))

abbrev pub SampleWindow : ℕ → Bytes → Bytes → Type 0
SampleWindow seg_len s segment = (dmer_len ≤ length s) × Inside (window_length seg_len s) s segment

-- A window of one of the samples.
abbrev pub SomeWindow : ℕ → List Bytes → Bytes → Type 0
SomeWindow seg_len [] segment = ⊥
SomeWindow seg_len (s ∷ ss) segment = SampleWindow seg_len s segment ⊎ SomeWindow seg_len ss segment

-- `r` is the better of `best` and the windows of which `Q` holds.
record Better (freq : Counts) (Q : Bytes → Type 0) (best r : Best) : Type 0 where
  scored : r.score ≡ value freq r.segment
  from : (r.segment ≡ best.segment) ⊎ Q r.segment
  more : best.score ≤ r.score
  above : (segment : Bytes) → Q segment → value freq segment ≤ r.score

consider-Better :
    (freq : Counts) (best : Best) (segment : Bytes) (score : ℕ)
    → best.score ≡ value freq best.segment
    → score ≡ value freq segment
    → Better freq (λ x. x ≡ segment) best (consider best segment score)
unfolding consider
consider-Better freq best segment score e e' = elim (Bool-cases (ltb best.score score)) [
  | inl higher ↦
      rw (higher, consider)
        (record {
          scored = e';
          from = inr refl;
          more = ground (arith, higher);
          above = λ x same. omega (arith, ap (value freq) same, e');
        })
  | inr lower ↦
      rw (lower, consider)
        (record {
          scored = e;
          from = inl refl;
          more = omega arith;
          above = λ x same. ground (arith, lower, ap (value freq) same, e');
        })
]

Better-trans :
    {freq : Counts} {P Q R : Bytes → Type 0} {a b c : Best}
    → ((x : Bytes) → P x → R x)
    → ((x : Bytes) → Q x → R x)
    → ((x : Bytes) → R x → P x ⊎ Q x)
    → Better freq P a b
    → Better freq Q b c
    → Better freq R a c
Better-trans {freq} {P} {Q} {R} {a} {b} {c} p q r f g = record {
  scored = g.scored;
  from = elim g.from [
    | inr new ↦ inr (q _ new)
    | inl kept ↦ elim f.from [
      | inl first ↦ inl (kept ∙ first)
      | inr window ↦ inr (subst R (sym kept) (p _ window))
    ]
  ];
  more = omega (arith, f.more, g.more);
  above = λ x here. elim (r x here) [
    | inl old ↦ omega (arith, f.above x old, g.more)
    | inr new ↦ g.above x new
  ];
}

Better-refl :
    {freq : Counts} {Q : Bytes → Type 0} (best : Best)
    → best.score ≡ value freq best.segment
    → ((x : Bytes) → Q x → ⊥)
    → Better freq Q best best
Better-refl best e none = record {
  scored = e;
  from = inl refl;
  more = omega arith;
  above = λ x here. absurd (none x here);
}

-- The windows of `s` behind the first byte.
abbrev Behind : ℕ → Bytes → Bytes → Type 0
Behind w [] segment = ⊥
Behind w (b ∷ s) segment = Inside w s segment

split_windows : (w : ℕ) (s x : Bytes) → 0 < w → Inside w s x → (x ≡ take w s) ⊎ Behind w s x
split_windows w s x positive (zero, inside, e) = inl e
split_windows w [] x positive (suc i, inside, e) = ground arith
split_windows w (b ∷ s) x positive (suc i, inside, e) = inr (i, omega (arith, inside), e)

Behind-Inside : (w : ℕ) (s x : Bytes) → Behind w s x → Inside w s x
Behind-Inside w [] x no_way = absurd no_way
Behind-Inside w (b ∷ s) x (i, inside, e) = (suc i, omega (arith, inside), e)

slide-Better :
    (freq : Counts) (j : ℕ) (best : Best) (window : Window) (s : Bytes)
    → best.score ≡ value freq best.segment
    → Scores freq window (dmers (take (j + 8) s))
    → Better freq (Behind (j + 8) s) best (slide freq (j + 8) best window s)
unfolding slide
slide-Better freq j best window [] e held = Better-refl best e λ x no_way. no_way
slide-Better freq j best window (b ∷ s) e held =
    let w : ℕ = j + 8 in
    let window' = slide_one freq w window b s in
    elim (Bool-cases (leb w (length s))) [
      | inr over ↦ rw over (Better-refl best e λ x (i, fits, _). ground (arith, over, fits))
      | inl inside ↦
          let fits = leb→le w (length s) inside in
          let held' = slide_one-Scores freq j window b s fits held in
          let first = consider-Better freq best (take w s) window'.score e held'.scored in
          let best' = consider best (take w s) window'.score in
          let later = slide-Better freq j best' window' s first.scored held' in
          rw inside (
            Better-trans {R = Inside w s} (λ x same. (0, omega (arith, fits), same))
              (λ x here. Behind-Inside w s x here)
              (λ x here. split_windows w s x (omega arith) here) first later)
    ]

-- The windows of one sample.
best_in-Better :
    (freq : Counts) (seg_len : ℕ) (best : Best) (s : Bytes)
    → dmer_len ≤ seg_len
    → best.score ≡ value freq best.segment
    → Better freq (SampleWindow seg_len s) best (best_in freq seg_len best s)
unfolding best_in
best_in-Better freq seg_len best s wide e = elim (Bool-cases (ltb (length s) dmer_len)) [
  | inl short ↦ rw short (Better-refl best e λ x here. ground (arith, short, here.0))
  | inr long ↦
      let w : ℕ = window_length seg_len s in
      let enough : dmer_len ≤ length s = ground (arith, long) in
      let at_least : dmer_len ≤ w = ground (arith, wide, enough) in
      let within : w ≤ length s = ground (arith, wide, enough) in
      let shape : w ≡ (w - dmer_len) + 8 = omega (arith, at_least) in
      let nothing : Window = record { active = []; score = 0 } in
      let window = enter_all freq nothing (dmers (take w s)) in
      let held : Scores freq window (dmers (take w s)) =
        enter_all-Scores freq nothing [] (dmers (take w s))
          (record { counts = λ k. unfold get in refl; scored = unfold distinct_sum in refl }) in
      let first = consider-Better freq best (take w s) window.score e held.scored in
      let best' = consider best (take w s) window.score in
      let later : Better freq (Behind w s) best' (slide freq w best' window s) =
        subst (λ n. Better freq (Behind n s) best' (slide freq n best' window s)) (sym shape)
          (slide-Better freq (w - dmer_len) best' window s first.scored
            (subst (λ n. Scores freq window (dmers (take n s))) shape held)) in
      rw long (
        Better-trans {R = SampleWindow seg_len s}
          (λ x same. (enough, (0, omega (arith, within), same)))
          (λ x here. (enough, Behind-Inside w s x here))
          (λ x here. split_windows w s x (omega (arith, at_least)) here.1) first later)
]

best_segment-Better :
    (freq : Counts) (seg_len : ℕ) (best : Best) (samples : List Bytes)
    → dmer_len ≤ seg_len
    → best.score ≡ value freq best.segment
    → Better freq (SomeWindow seg_len samples) best (best_segment best samples freq seg_len)
unfolding best_segment
best_segment-Better freq seg_len best [] wide e = Better-refl best e λ x no_way. no_way
best_segment-Better freq seg_len best (s ∷ ss) wide e =
    let first = best_in-Better freq seg_len best s wide e in
    Better-trans {R = SomeWindow seg_len (s ∷ ss)} (λ x here. inl here) (λ x there. inr there)
      (λ x either. either) first
      (best_segment-Better freq seg_len (best_in freq seg_len best s) ss wide first.scored)

-- `bestSegment`, for segments of at least eight bytes, returns the score that its segment has by a
-- direct count: the sum, as a uint32, of the frequencies of the distinct dmers in it. The segment
-- is empty or a window of one of the samples, and no window of any sample has a higher score.
pub best_segment-value :
    (freq : Counts) (seg_len : ℕ) (samples : List Bytes)
    → dmer_len ≤ seg_len
    → ((best_segment no_segment samples freq seg_len).score
        ≡ value freq (best_segment no_segment samples freq seg_len).segment)
      × (((best_segment no_segment samples freq seg_len).segment ≡ [])
          ⊎ SomeWindow seg_len samples (best_segment no_segment samples freq seg_len).segment)
      × ((segment : Bytes)
          → SomeWindow seg_len samples segment
          → value freq segment ≤ (best_segment no_segment samples freq seg_len).score)
best_segment-value freq seg_len samples wide =
    let nothing : no_segment.score ≡ value freq no_segment.segment =
      unfold distinct_sum dmers in refl in
    let b = best_segment-Better freq seg_len no_segment samples wide nothing in
    (b.scored, b.from, b.above)
