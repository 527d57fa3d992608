-- ===== src/Dict.antt =====
-- internal/zchunk/zdict.go: the selection of a dictionary's content. The dictionary builder of the
-- zstd library and the hash FNV-1a are parameters.
pub mod Windows
pub mod Maximal
pub mod Select
use zchunk.Prelude.{
  ℕ, zero, suc, ◌+◌, ◌-◌, ◌*◌, ◌%◌, bit_or, Bool, true, false, List, [], ◌∷◌, ◌++◌, ◌==◌, ltb, leb,
  if◌then◌else◌, length, take, drop,
}
use zchunk.Go.Result.{Result, ok, stuck, ◌>>=◌}
use zchunk.Go.Reader.{Bytes}

-- dmerLen
abbrev pub dmer_len : ℕ
dmer_len = 8

-- defaultSegLen
abbrev pub default_seg_len : ℕ
default_seg_len = 256

-- uint32
abbrev pub u32_mod : ℕ
u32_mod = 4294967296

-- The first `n` bytes as a little-endian number.
unfoldable pub little_endian : ℕ → Bytes → ℕ
little_endian zero s = 0
little_endian (suc n) [] = 0
little_endian (suc n) (b ∷ s) = b + 256 * little_endian n s

-- `for i := 0; i+dmerLen <= len(s); i++ { … Uint64(s[i:]) … }`
unfoldable pub dmers : Bytes → List ℕ
unfolding little_endian
dmers [] = []
dmers (b ∷ s) =
    if leb dmer_len (length (b ∷ s)) then little_endian dmer_len (b ∷ s) ∷ dmers s else []

-- A map from dmers to counts, as the list of its assignments, the last one first.
abbrev pub Counts : Type 0
Counts = List (ℕ × ℕ)

unfoldable pub get : Counts → ℕ → ℕ
get [] k = 0
get ((j, n) ∷ m) k = if j == k then n else get m k

abbrev pub set : Counts → ℕ → ℕ → Counts
set m k n = (k, n) ∷ m

-- `freq[…]++` for each dmer of a sample.
unfoldable pub count_dmers : Counts → List ℕ → Counts
unfolding get
count_dmers freq [] = freq
count_dmers freq (k ∷ ks) = count_dmers (set freq k ((get freq k + 1) % u32_mod)) ks

unfoldable pub count_samples : Counts → List Bytes → Counts
unfolding count_dmers dmers
count_samples freq [] = freq
count_samples freq (s ∷ ss) = count_samples (count_dmers freq (dmers s)) ss

-- `freq[…] = 0` for each dmer of a segment.
unfoldable pub retire : Counts → List ℕ → Counts
retire freq [] = freq
retire freq (k ∷ ks) = retire (set freq k 0) ks

-- `active` and `score` of the window.
pub record Window : Type 0 where
  pub active : Counts
  pub score : ℕ

-- A dmer enters the window.
unfoldable pub enter : Counts → Window → ℕ → Window
unfolding get
enter freq w k = record {
  active = set w.active k (get w.active k + 1);
  score = if get w.active k == 0 then (w.score + get freq k) % u32_mod else w.score;
}

-- A dmer that is in the window leaves it, so that its count is not zero.
unfoldable pub leave : Counts → Window → ℕ → Window
unfolding get
leave freq w k = record {
  active = set w.active k (get w.active k - 1);
  score =
      if get w.active k - 1 == 0
      then (w.score + (u32_mod - get freq k % u32_mod)) % u32_mod
      else w.score;
}

unfoldable pub enter_all : Counts → Window → List ℕ → Window
unfolding enter
enter_all freq w [] = w
enter_all freq w (k ∷ ks) = enter_all freq (enter freq w k) ks

-- `best` and `bestScore`
pub record Best : Type 0 where
  pub segment : Bytes
  pub score : ℕ

abbrev pub no_segment : Best
no_segment = record { segment = []; score = 0 }

-- `if score > bestScore`
unfoldable pub consider : Best → Bytes → ℕ → Best
consider best s score = if ltb best.score score then record { segment = s; score = score } else best

-- One step of the window of length `w`, which stands in front of `b ∷ s`.
unfoldable pub slide_one : Counts → ℕ → Window → ℕ → Bytes → Window
unfolding enter leave little_endian
slide_one freq w window b s =
    enter freq (leave freq window (little_endian dmer_len (b ∷ s)))
      (little_endian dmer_len (drop (w - dmer_len) s))

-- The loop that slides the window, for a window of `dmerLen` bytes or more.
unfoldable pub slide : Counts → ℕ → Best → Window → Bytes → Best
unfolding slide_one consider
slide freq w best window [] = best
slide freq w best window (b ∷ s) =
    let window' = slide_one freq w window b s in
    if leb w (length s)
    then slide freq w (consider best (take w s) window'.score) window' s
    else best

-- `w`
abbrev pub window_length : ℕ → Bytes → ℕ
window_length seg_len s = if ltb (length s) seg_len then length s else seg_len

-- One round of the loop over the samples.
unfoldable pub best_in : Counts → ℕ → Best → Bytes → Best
unfolding enter_all dmers slide consider
best_in freq seg_len best s =
    let w = window_length seg_len s in
    let window = enter_all freq (record { active = []; score = 0 }) (dmers (take w s)) in
    if ltb (length s) dmer_len
    then best
    else slide freq w (consider best (take w s) window.score) window s

unfoldable pub best_segment : Best → List Bytes → Counts → ℕ → Best
unfolding best_in
best_segment best [] freq seg_len = best
best_segment best (s ∷ ss) freq seg_len = best_segment (best_in freq seg_len best s) ss freq seg_len

-- The greedy loop; `size` is 0 for a `targetSize` that is not positive.
unfoldable pub select_from : ℕ → List Bytes → ℕ → ℕ → Counts → Bytes → Result Bytes
unfolding best_segment retire dmers
select_from zero samples size seg_len freq content = stuck
select_from (suc fuel) samples size seg_len freq content =
    let best = best_segment no_segment samples freq seg_len in
    elim (ltb (length content) size) [
      | false ↦ ok content
      | true ↦ elim (best.score == 0) [
        | true ↦ ok content
        | false ↦
            select_from fuel samples size seg_len (retire freq (dmers best.segment))
              (take (size - length content) best.segment ++ content)
      ]
    ]

-- Every round adds a byte at least, so that `size` rounds and one more are enough.
unfoldable pub select_dict_content : List Bytes → ℕ → ℕ → Result Bytes
unfolding select_from count_samples
select_dict_content samples size seg_len = elim (count_samples [] samples) [
  | [] ↦ ok []
  | ◌∷◌ entry freq ↦ select_from (suc size) samples size seg_len (entry ∷ freq) []
]

-- zstd.BuildDictOptions
pub record BuildDictOptions : Type 0 where
  pub id : ℕ
  pub contents : List Bytes
  pub history : Bytes
  pub offsets : ℕ × ℕ × ℕ

pub record Trainer : Type 0 where
  pub build_dict : BuildDictOptions → Result Bytes
  pub fnv32a : Bytes → ℕ

unfoldable pub dict_id : Trainer → Bytes → ℕ
dict_id t content = bit_or (t.fnv32a content) 1

unfoldable pub generate_dict : Trainer → List Bytes → ℕ → Result Bytes
unfolding select_dict_content dict_id
generate_dict t samples size = do
  content ← select_dict_content samples size default_seg_len
  t.build_dict (record {
    id = dict_id t content;
    contents = samples;
    history = content;
    offsets = (1, 4, 8);
  })
