-- ===== src/Dict/Select.antt =====
-- The content that `selectDictContent` selects.
use zchunk.Prelude.{
  ℕ, zero, suc, ◌+◌, ◌-◌, ◌≤◌, ◌<◌, ◌≡◌, ap, refl, false, Bool-cases, inl, inr, List, [], ◌∷◌, ◌++◌,
  ◌==◌, ltb, All, List-cases, length, length-append, length-take, take, drop, length-drop, flatten,
  arith,
}
use zchunk.Go.Result.{ok}
use zchunk.Go.Reader.{Bytes}
use zchunk.Dict.{
  dmer_len, dmers, Counts, count_samples, retire, no_segment, window_length, best_segment,
  select_from, select_dict_content,
}
use zchunk.Dict.Windows.{distinct_sum}
use zchunk.Dict.Maximal.{value, SomeWindow, best_segment-value}

-- A non-empty front of a window of a sample.
abbrev pub Selected : ℕ → List Bytes → Bytes → Type 0
Selected seg_len samples piece =
    (0 < length piece)
    × (segment : Bytes) × SomeWindow seg_len samples segment
    × (n : ℕ) × (piece ≡ take n segment)

-- Content of at most `size` bytes that was selected from the samples.
pub record Content (seg_len : ℕ) (samples : List Bytes) (size : ℕ) (content : Bytes) : Type 0 where
  pub pieces : List Bytes
  pub selected : All (Selected seg_len samples) pieces
  pub joined : content ≡ flatten pieces
  pub within : length content ≤ size

SomeWindow-nonempty :
    (seg_len : ℕ) (samples : List Bytes) (x : Bytes)
    → dmer_len ≤ seg_len
    → SomeWindow seg_len samples x
    → 0 < length x
SomeWindow-nonempty seg_len [] x wide no_way = absurd no_way
SomeWindow-nonempty seg_len (s ∷ ss) x wide (inr there) =
    SomeWindow-nonempty seg_len ss x wide there
SomeWindow-nonempty seg_len (s ∷ ss) x wide (inl (long, (i, inside, e))) =
    let w : ℕ = window_length seg_len s in
    let positive : 0 < w = ground (arith, wide, long) in
    omega (arith, ap length e, length-take w (drop i s), length-drop i s, inside, positive)

-- A segment with a score is a window.
scored_window :
    (freq : Counts) (seg_len : ℕ) (samples : List Bytes)
    → dmer_len ≤ seg_len
    → ((best_segment no_segment samples freq seg_len).score == 0) ≡ false
    → SomeWindow seg_len samples (best_segment no_segment samples freq seg_len).segment
scored_window freq seg_len samples wide scored =
    let (same, from, _) = best_segment-value freq seg_len samples wide in
    elim from [
      | inr window ↦ window
      | inl empty ↦
          let none : value freq [] ≡ 0 = unfold distinct_sum dmers in refl in
          ground (arith, scored, same, ap (value freq) empty, none)
    ]

select_from-Content :
    (fuel : ℕ) (samples : List Bytes) (size seg_len : ℕ) (freq : Counts) (content : Bytes)
    → dmer_len ≤ seg_len
    → size < length content + fuel
    → Content seg_len samples size content
    → (r : Bytes) × (select_from fuel samples size seg_len freq content ≡ ok r)
      × Content seg_len samples size r
unfolding select_from
select_from-Content zero samples size seg_len freq content wide enough c =
    absurd (omega (arith, enough, c.within))
select_from-Content (suc fuel) samples size seg_len freq content wide enough c =
    let best = best_segment no_segment samples freq seg_len in
    elim (Bool-cases (ltb (length content) size)) [
      | inr full ↦ (content, rw (full, select_from) refl, c)
      | inl room ↦ elim (Bool-cases (best.score == 0)) [
        | inl nothing ↦ (content, rw (room, nothing, select_from) refl, c)
        | inr scored ↦
            let free : length content < size = ground (arith, room) in
            let window = scored_window freq seg_len samples wide scored in
            let some_bytes = SomeWindow-nonempty seg_len samples best.segment wide window in
            let n : ℕ = size - length content in
            let piece : Bytes = take n best.segment in
            let long = length-take n best.segment in
            let total = length-append piece content in
            let (r, selected, c') =
              select_from-Content fuel samples size seg_len (retire freq (dmers best.segment))
                (piece ++ content) wide (omega (arith, total, long, enough, free, some_bytes))
                (record {
                  pieces = piece ∷ c.pieces;
                  selected = (
                    (omega (arith, long, free, some_bytes), best.segment, window, n, refl),
                    c.selected,
                  );
                  joined = ap (λ x. piece ++ x) c.joined;
                  within = omega (arith, total, long, c.within, free);
                }) in
            (r, rw (room, scored, select_from) selected, c')
      ]
    ]

-- For segments of at least eight bytes, `selectDictContent` ends on all samples, after at most one
-- round for each byte asked for, and returns at most as many bytes as asked for: one after the
-- other, fronts of windows of the samples, each of a byte at least.
pub select_dict_content_total :
    (samples : List Bytes) (size seg_len : ℕ)
    → dmer_len ≤ seg_len
    → (content : Bytes) × (select_dict_content samples size seg_len ≡ ok content)
      × Content seg_len samples size content
unfolding select_dict_content
select_dict_content_total samples size seg_len wide =
    let nothing : Content seg_len samples size [] = record {
      pieces = [];
      selected = tt;
      joined = refl;
      within = omega arith;
    } in
    elim (List-cases (count_samples [] samples)) [
      | inl none ↦ ([], rw (none, select_dict_content) refl, nothing)
      | inr (e, (freq, some)) ↦
          let (r, selected, c) =
            select_from-Content (suc size) samples size seg_len (e ∷ freq) [] wide (omega arith)
              nothing in
          (r, rw (some, select_dict_content) selected, c)
    ]
