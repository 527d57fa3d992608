-- ===== src/Http.antt =====
-- internal/zchunk/httprange.go: `HTTPRangeReader`. The package net/http is a parameter.
pub mod Range
use zchunk.Prelude.{ℕ, ◌+◌, ◌%◌, Option, none, some, ◌==◌}
use zchunk.Go.Error.{Error, Context, unexpected_status, wrap}
use zchunk.Go.Result.{Result, ok, err, panic, stuck, guard, in_context, u64_mod, ◌>>=◌, ◌>>◌}
use zchunk.Go.Reader.{Bytes}
use zchunk.Header.{RangeReader}

-- A GET request, with the two int64s (as bit patterns) that its header `Range: bytes=%d-%d` prints.
pub record Request : Type 0 where
  pub url : Bytes
  pub first : ℕ
  pub last : ℕ

-- A response, with what `io.ReadAll` gets from its body and the error that ends it.
pub record Response : Type 0 where
  pub status : ℕ
  pub body : Bytes
  pub fault : Option Error

-- `client.Do(req)`
abbrev pub Client : Type 0
Client = Request → Result Response

-- What the package takes from net/http: why `http.NewRequest` refuses a URL, if it does, and
-- `http.DefaultClient`.
pub record Network : Type 0 where
  pub request_error : Bytes → Option Error
  pub default_client : Client

pub record HttpRangeReader : Type 0 where
  pub url : Bytes
  pub base : ℕ
  pub client : Option Client

-- http.StatusPartialContent
abbrev pub partial_content : ℕ
partial_content = 206

unfoldable pub new_http_range_reader : Network → Bytes → ℕ → Option Client → HttpRangeReader
new_http_range_reader net url base none = record {
  url = url;
  base = base;
  client = some net.default_client;
}
new_http_range_reader net url base (some c) = record { url = url; base = base; client = some c }

-- A nil client is dereferenced.
abbrev pub send : Option Client → Request → Result Response
send none req = panic
send (some c) req = c req

-- What is left to do when the request is built. The error for another status has its number, where the
-- code prints the status line.
unfoldable pub fetch : HttpRangeReader → ℕ → ℕ → Result Bytes
fetch r start n = do
  response ← in_context Context.http_request (
      send r.client (record {
        url = r.url;
        first = start;
        last = (start + n + 18446744073709551615) % u64_mod;
      }))
  guard (response.status == partial_content) (unexpected_status response.status)
  elim response.fault [ none ↦ ok response.body | some e ↦ err (wrap Context.range_body e) ]

unfoldable pub read_range : Network → HttpRangeReader → RangeReader
unfolding fetch
read_range net r offset n = elim (net.request_error r.url) [
  | none ↦ fetch r ((r.base + offset) % u64_mod) n
  | some e ↦ err (wrap Context.build_request e)
]
