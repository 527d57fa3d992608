-- ===== src/Cli/Files/RoundTrip.antt =====
-- Commands one after the other: `create`, then `extract` or `gen-zdict` on its output.
use zchunk.Prelude.{
  ℕ, zero, suc, ◌≤◌, ◌<◌, ◌≡◌, ◌∙◌, ap, refl, true, false, some, List, [], ◌++◌, length, flatten,
  arith,
}
use zchunk.Go.Error.{Context, chunk_size_not_positive, max_size_not_positive}
use zchunk.Go.Int.{ℤ, pos, negsuc, positive}
use zchunk.Go.Result
use zchunk.Go.Result.{Result, ok, max_int, in_context}
use zchunk.Go.Reader.{Bytes, at_end}
use zchunk.Go.Writer.{buffer}
use zchunk.Checksum.{Hashes, sha256}
use zchunk.Preface.{CompressionType}
use zchunk.Lead.{equal}
use zchunk.Codec.{Zstd}
use zchunk.Builder.{Builder, new_builder}
use zchunk.Dict.{Trainer, generate_dict}
use zchunk.Cli
use zchunk.Cli.{create, collect_chunk_samples}
use zchunk.Cli.Chunking.{Fixed}
use zchunk.Cli.RoundTrip.{Created, create-Created, extract-Created}
use zchunk.Cli.Samples.{collect_chunk_samples-Created}
use zchunk.Cli.Names.{parse_compression}
use zchunk.Cli.Files.Steps.{
  above_zero-some, put_same, put_other, content_of-some, open_file_found, create_file_made,
  close_file_closes,
}
use zchunk.Cli.Files.{
  Disk, Os, put, content_of, load_dict, write_whole, Outcome, or_quit, CreateFlags, create_command,
  extract_command, gen_zdict_command, to_create, to_extract, to_gen_zdict, run,
}

-- Nothing that a command does with the file of this path is refused.
pub record Works (os : Os) (p : Bytes) : Type 0 where
  pub opens : os.openable p ≡ true
  pub makes : os.creatable p ≡ true
  pub closes : os.closes p ≡ true
  pub ends : os.ending p ≡ at_end
  pub takes : os.writer p ≡ buffer

abbrev done : Disk → Outcome
done d = record { disk = d; printed = []; result = ok tt }

pub positive-lt : (x : ℤ) {n : ℕ} → positive x ≡ some n → 0 < n
unfolding positive
positive-lt (pos zero) h = cc
positive-lt (pos (suc m)) h = ground arith
positive-lt (negsuc m) h = cc

pub create_command-done :
    (os : Os) (h : Hashes) (z : Zstd) (d : Disk) (flags : CreateFlags) (file out s : Bytes)
    {ct : CompressionType} {n : ℕ} {dict : Bytes} (c : Created h z n ct dict s)
    → Works os file
    → Works os out
    → equal out file ≡ false
    → d file ≡ some s
    → parse_compression flags.compression ≡ ok ct
    → positive flags.chunk_size ≡ some n
    → load_dict os d flags.dict_path ≡ ok dict
    → create_command os h z flags file out d
      ≡ done (put (put d out []) out (c.header ++ c.builder.body))
unfolding create_command or_quit
create_command-done os h z d flags file out s {ct} {n} {dict} c wf wo other found parsed sized
      loaded =
    let size = above_zero-some flags.chunk_size (chunk_size_not_positive flags.chunk_size) sized in
    let opened = open_file_found os (Context.open_file file) d file found wf.opens in
    let made = create_file_made os d out wo.makes in
    let input = content_of-some (put d out []) file (put_other d out file [] other ∙ found) in
    let written = (λ i. create h z n ct dict (wo.takes i) [] (wf.ends i) (input i)) ∙ c.writes [] in
    let closed = close_file_closes os out wo.closes in
    rw (parsed, size, loaded)
      (rw (opened, made)
        (λ i. record {
          disk = put (put d out []) out (written i).out;
          printed = [];
          result = Result.◌>>◌ (written i).result (closed i);
        }))

pub extract_command-done :
    (os : Os) (h : Hashes) (z : Zstd) (d : Disk) (file out f s : Bytes) {count : ℕ}
    → Works os file
    → Works os out
    → equal out file ≡ false
    → d file ≡ some f
    → Cli.extract h z buffer at_end f [] ≡ record { out = s; count = count; result = ok tt }
    → extract_command os h z file out d ≡ done (put (put d out []) out s)
unfolding extract_command or_quit
extract_command-done os h z d file out f s wf wo other found extracted =
    let opened = open_file_found os (Context.open_file file) d file found wf.opens in
    let made = create_file_made os d out wo.makes in
    let input = content_of-some (put d out []) file (put_other d out file [] other ∙ found) in
    let written = (λ i. Cli.extract h z (wo.takes i) (wf.ends i) (input i) []) ∙ extracted in
    rw (opened, made)
      (λ i. record {
        disk = put (put d out []) out (written i).out;
        printed = [];
        result = (written i).result;
      })

gen_zdict_command-trains :
    (os : Os) (z : Zstd) (t : Trainer) (max_size : ℤ) (d : Disk) (file out f : Bytes)
    (chunks : List Bytes) {m : ℕ}
    → Works os file
    → d file ≡ some f
    → positive max_size ≡ some m
    → collect_chunk_samples z at_end f ≡ ok (chunks, [])
    → gen_zdict_command os z t max_size file out d
      ≡ or_quit d (generate_dict t chunks m) λ trained. write_whole os d out trained
unfolding gen_zdict_command or_quit
gen_zdict_command-trains os z t max_size d file out f chunks wf found sized sampled =
    let size = above_zero-some max_size (max_size_not_positive max_size) sized in
    let opened = open_file_found os (Context.open_file file) d file found wf.opens in
    let samples : collect_chunk_samples z (os.ending file) (content_of d file) ≡ ok (chunks, []) =
      (λ i. collect_chunk_samples z (wf.ends i) (content_of-some d file found i)) ∙ sampled in
    rw (size, opened, samples) refl

-- `create`, and then `extract` on its output, give the input back: where nothing is refused for the
-- three paths, of which the output of each command is not its input, FILE holds `s`, the flags are
-- accepted, `NewBuilder` succeeds with the dictionary that they name, and the input and the dictionary
-- are not too large for a slice, `create` succeeds, and if its file fits a slice, then `extract`
-- succeeds and leaves `s` in its output.
pub run_extract-run_create :
    (os : Os) (h : Hashes) (z : Zstd) (t : Trainer) (d : Disk) (flags : CreateFlags)
    (file mid out s : Bytes) {ct : CompressionType} {n : ℕ} {dict : Bytes} {b₀ : Builder}
    → Works os file
    → Works os mid
    → Works os out
    → equal mid file ≡ false
    → equal out mid ≡ false
    → d file ≡ some s
    → parse_compression flags.compression ≡ ok ct
    → positive flags.chunk_size ≡ some n
    → load_dict os d flags.dict_path ≡ ok dict
    → new_builder h z ct sha256 dict ≡ ok b₀
    → length s < max_int
    → length dict ≤ max_int
    → let o = run os h z t (to_create flags file mid) d in
      (f : Bytes) × (o.result ≡ ok tt)
      × (o.disk mid ≡ some f)
      × (length f ≤ max_int
          → let o' = run os h z t (to_extract mid out) o.disk in
            (o'.result ≡ ok tt) × (o'.disk out ≡ some s))
unfolding run
run_extract-run_create os h z t d flags file mid out s {ct} {n} {dict} wf wm wo other other' found
      parsed sized loaded started few_in few_dict =
    let c =
      create-Created h z n ct dict s started (positive-lt flags.chunk_size sized) few_in few_dict in
    let f : Bytes = c.header ++ c.builder.body in
    let d₁ : Disk = put (put d mid []) mid f in
    let first =
      create_command-done os h z d flags file mid s c wf wm other found parsed sized loaded in
    (
      f,
      ap (λ (o : Outcome). o.result) first,
      ap (λ (o : Outcome). o.disk mid) first ∙ put_same (put d mid []) mid f,
      λ few.
          let content = extract-Created h z n ct dict s [] c few in
          let second =
            extract_command-done os h z d₁ mid out f (flatten c.chunks) wm wo other'
              (put_same (put d mid []) mid f) content in
          let both = ap (λ (o : Outcome). extract_command os h z mid out o.disk) first ∙ second in
          (
            ap (λ (o : Outcome). o.result) both,
            ap (λ (o : Outcome). o.disk out) both
                ∙ put_same (put d₁ out []) out (flatten c.chunks)
                ∙ ap some c.whole,
          ),
    )

-- `gen-zdict` on the output of `create` trains on the chunks of the input: under the conditions of
-- `create`, and if its file fits a slice, `create` has cut its input `s` into chunks of `n` bytes, the
-- last of which may be shorter, and `gen-zdict` with a positive size `m` is writing what `GenerateDict`
-- makes of exactly these chunks and `m`.
pub run_gen_zdict-run_create :
    (os : Os) (h : Hashes) (z : Zstd) (t : Trainer) (d : Disk) (flags : CreateFlags)
    (file mid out s : Bytes) (max_size : ℤ) {ct : CompressionType} {n m : ℕ} {dict : Bytes}
    {b₀ : Builder}
    → Works os file
    → Works os mid
    → equal mid file ≡ false
    → d file ≡ some s
    → parse_compression flags.compression ≡ ok ct
    → positive flags.chunk_size ≡ some n
    → positive max_size ≡ some m
    → load_dict os d flags.dict_path ≡ ok dict
    → new_builder h z ct sha256 dict ≡ ok b₀
    → length s < max_int
    → length dict ≤ max_int
    → let o = run os h z t (to_create flags file mid) d in
      (chunks : List Bytes) × (f : Bytes) × Fixed n chunks
      × (flatten chunks ≡ s)
      × (o.disk mid ≡ some f)
      × (length f ≤ max_int
          → run os h z t (to_gen_zdict max_size mid out) o.disk
            ≡ or_quit o.disk
                (generate_dict t chunks m)
                λ trained. write_whole os o.disk out trained)
unfolding run
run_gen_zdict-run_create os h z t d flags file mid out s max_size {ct} {n} {m} {dict} wf wm other
      found parsed sized sized' loaded started few_in few_dict =
    let c =
      create-Created h z n ct dict s started (positive-lt flags.chunk_size sized) few_in few_dict in
    let f : Bytes = c.header ++ c.builder.body in
    let first =
      create_command-done os h z d flags file mid s c wf wm other found parsed sized loaded in
    let stored = ap (λ (o : Outcome). o.disk mid) first ∙ put_same (put d mid []) mid f in
    (
      c.chunks,
      f,
      c.fixed,
      c.whole,
      stored,
      λ few.
          gen_zdict_command-trains os z t max_size _ mid out f c.chunks wm stored sized'
            (collect_chunk_samples-Created h z n ct dict s c few),
    )
