-- ===== src/Tests/Dictionary.antt =====
-- The theorems on dictionaries, applied to two short samples.
use zchunk.Prelude.{◌≡◌, ◌≤◌, ◌⊎◌, refl, List, [], ◌∷◌, leb→le, replicate}
use zchunk.Go.Result.{ok}
use zchunk.Go.Reader.{Bytes}
use zchunk.Dict.{Counts, count_samples, no_segment, best_segment, select_dict_content}
use zchunk.Dict.Maximal.{value, SomeWindow, best_segment-value}
use zchunk.Dict.Select.{Content, select_dict_content_total}

abbrev samples : List Bytes
samples = (1 ∷ 2 ∷ replicate 12 5) ∷ replicate 9 5 ∷ (3 ∷ []) ∷ []

abbrev freq : Counts
freq = count_samples [] samples

best_segment-value_example :
    ((best_segment no_segment samples freq 10).score
      ≡ value freq (best_segment no_segment samples freq 10).segment)
    × (((best_segment no_segment samples freq 10).segment ≡ [])
        ⊎ SomeWindow 10 samples (best_segment no_segment samples freq 10).segment)
    × ((segment : Bytes)
        → SomeWindow 10 samples segment
        → value freq segment ≤ (best_segment no_segment samples freq 10).score)
best_segment-value_example = best_segment-value freq 10 samples (leb→le 8 10 refl)

select_dict_content_total_example :
    (content : Bytes) × (select_dict_content samples 12 10 ≡ ok content)
    × Content 10 samples 12 content
select_dict_content_total_example = select_dict_content_total samples 12 10 (leb→le 8 10 refl)
