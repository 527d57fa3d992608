-- ===== src/Http/Range.antt =====
-- A range reader over a server that answers range requests.
use zchunk.Prelude.{
  ℕ, ◌+◌, ◌-◌, ◌%◌, ◌≤◌, ◌<◌, ◌≡◌, ap, none, some, length, length-drop, take, drop, drop-drop,
  arith,
}
use zchunk.Go.Result.{ok, max_int, u64_mod}
use zchunk.Go.Reader.{Bytes}
use zchunk.Header.Remote.{Serves}
use zchunk.Download.{offset_range}
use zchunk.Http.{Client, Network, new_http_range_reader, partial_content, fetch, read_range}

-- The server answers a request for a range of bytes that the file has, both ends included, with
-- these bytes.
pub record Answers (client : Client) (url file : Bytes) : Type 0 where
  pub partial :
      (first last : ℕ)
      → first ≤ last
      → last < length file
      → client (record { url = url; first = first; last = last })
        ≡ ok (record {
          status = partial_content;
          body = take (last + 1 - first) (drop first file);
          fault = none;
        })

-- The server answers so for the ranges behind the first `base` bytes, and others as it likes.
pub record AnswersFrom (base : ℕ) (client : Client) (url file : Bytes) : Type 0 where
  pub partial :
      (first last : ℕ)
      → base ≤ first
      → first ≤ last
      → last < length file
      → client (record { url = url; first = first; last = last })
        ≡ ok (record {
          status = partial_content;
          body = take (last + 1 - first) (drop first file);
          fault = none;
        })

-- An `HTTPRangeReader` with the base `base` gives every non-empty range of the part of a file behind
-- its first `base` bytes, if its URL can be requested, the file fits a slice and has the `base`
-- bytes, and the server answers each request for a range of bytes that the file has with status 206
-- and these bytes.
pub read_range-Serves :
    (net : Network) (client : Client) (url file : Bytes) (base : ℕ)
    → net.request_error url ≡ none
    → Answers client url file
    → length file ≤ max_int
    → base ≤ length file
    → Serves (read_range net (new_http_range_reader net url base (some client))) (drop base file)
unfolding read_range fetch new_http_range_reader
read_range-Serves net client url file base valid answers few inside = record {
  ranges = λ offset n some_bytes fits.
      let within : base + offset + n ≤ length file =
        omega (arith, fits, length-drop base file, inside) in
      let start : (base + offset) % u64_mod ≡ base + offset = omega arith in
      let last : (base + offset + n + 18446744073709551615) % u64_mod ≡ base + offset + n - 1 =
        omega arith in
      let answer =
        answers.partial (base + offset) (base + offset + n - 1) (omega arith) (omega arith) in
      let all : base + offset + n - 1 + 1 - (base + offset) ≡ n = omega arith in
      rw (valid, read_range, start, last, answer, all)
        (ap (λ b. ok (take n b)) (drop-drop base offset file));
}

-- An `HTTPRangeReader` without a base, shifted by `base`, asks for no byte in front of `base`.
pub offset_range-read_range :
    (net : Network) (client : Client) (url file : Bytes) (base : ℕ)
    → net.request_error url ≡ none
    → AnswersFrom base client url file
    → length file ≤ max_int
    → base ≤ length file
    → Serves
        (offset_range (read_range net (new_http_range_reader net url 0 (some client))) base)
        (drop base file)
unfolding read_range fetch new_http_range_reader offset_range
offset_range-read_range net client url file base valid answers few inside = record {
  ranges = λ offset n some_bytes fits.
      let within : base + offset + n ≤ length file =
        omega (arith, fits, length-drop base file, inside) in
      let start : (0 + (base + offset) % u64_mod) % u64_mod ≡ base + offset = omega arith in
      let last : (base + offset + n + 18446744073709551615) % u64_mod ≡ base + offset + n - 1 =
        omega arith in
      let answer =
        answers.partial (base + offset) (base + offset + n - 1) (omega arith) (omega arith)
          (omega arith) in
      let all : base + offset + n - 1 + 1 - (base + offset) ≡ n = omega arith in
      rw (valid, read_range, start, last, answer, all)
        (ap (λ b. ok (take n b)) (drop-drop base offset file));
}
