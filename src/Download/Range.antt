-- ===== src/Download/Range.antt =====
-- The body of a file, read through `offset_range`.
use zchunk.Prelude.{
  ◌+◌, ◌%◌, ◌≤◌, ◌≡◌, ◌∙◌, ap, ◌++◌, length, length-append, take, drop, drop-append, drop-drop,
  arith,
}
use zchunk.Go.Result.{ok, max_int, u64_mod}
use zchunk.Go.Reader.{Bytes}
use zchunk.Header.{RangeReader}
use zchunk.Header.Remote.{Serves}
use zchunk.Download.{offset_range}

-- A reader that serves a file serves, shifted by the length of the file's header, the body.
pub offset_range-Serves :
    (remote : RangeReader) (header body : Bytes)
    → length (header ++ body) ≤ max_int
    → Serves remote (header ++ body)
    → Serves (offset_range remote (length header)) body
unfolding offset_range
offset_range-Serves remote header body few serves = record {
  ranges = λ offset n some_bytes inside.
      let long = length-append header body in
      let no_wrap : (length header + offset) % u64_mod ≡ length header + offset = omega arith in
      ap (λ o. remote o n) no_wrap
      ∙ serves.ranges (length header + offset) n some_bytes (omega arith)
      ∙ ap (λ b. ok (take n b))
          (drop-drop (length header) offset (header ++ body)
            ∙ ap (drop offset) (drop-append header body));
}
