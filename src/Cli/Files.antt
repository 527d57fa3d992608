-- ===== src/Cli/Files.antt =====
-- cmd/zchunk/main.go: the commands that work on files. The file system of package os is a map from
-- paths to contents, and what it refuses is a parameter. Two paths that differ are two files: links
-- are left out.
pub mod Steps
pub mod Frame
pub mod Views
pub mod Refusals
pub mod RoundTrip
use zchunk.Prelude.{
  ◌*◌, ℕ, zero, suc, Bool, true, false, Option, none, some, [], ◌∷◌, if◌then◌else◌,
}
use zchunk.Go.Error.{
  Error, Context, file_error, io_fault, wrap, chunk_size_not_positive, max_size_not_positive,
}
use zchunk.Go.Int.{ℤ, pos, positive}
use zchunk.Go.Text.{codes}
use zchunk.Go.Result
use zchunk.Go.Result.{Result, ok, err, panic, stuck, guard, in_context, ◌>>=◌, ◌>>◌}
use zchunk.Go.Reader.{Bytes, Ending}
use zchunk.Go.Writer.{Writer, Written, write}
use zchunk.Checksum.{Hashes}
use zchunk.Lead.{equal}
use zchunk.Codec.{Zstd}
use zchunk.Dict.{Trainer, generate_dict}
use zchunk.Cli
use zchunk.Cli.{detached_header, collect_chunk_samples}
use zchunk.Cli.Names.{parse_compression}
use zchunk.Cli.Report.{Printed, report_lead}

abbrev pub Disk : Type 0
Disk = Bytes → Option Bytes

-- What the calls of package os do with a path: whether it can be opened, created and closed, how
-- reading it ends, and what writing to it takes; and the command's own output.
pub record Os : Type 0 where
  pub openable : Bytes → Bool
  pub creatable : Bytes → Bool
  pub closes : Bytes → Bool
  pub ending : Bytes → Ending
  pub writer : Bytes → Writer
  pub stdout : Writer

unfoldable pub put : Disk → Bytes → Bytes → Disk
unfolding equal
put d p content q = if equal p q then some content else d q

-- The bytes of an open file.
unfoldable pub content_of : Disk → Bytes → Bytes
content_of d p = elim (d p) [ none ↦ [] | some content ↦ content ]

abbrev pub exists_in : Disk → Bytes → Bool
exists_in d p = elim (d p) [ none ↦ false | some content ↦ true ]

-- `os.Open`, with the message around its error.
unfoldable pub open_file : Os → Context → Disk → Bytes → Result (Unit {0})
open_file os c d p = guard (if os.openable p then exists_in d p else false) (wrap c file_error)

-- Whether a file can be made, or made empty.
unfoldable pub may_create : Os → Context → Bytes → Result (Unit {0})
may_create os c p = guard (os.creatable p) (wrap c file_error)

-- `os.Create`: the file is there and empty.
unfoldable pub create_file : Os → Disk → Bytes → Result Disk
unfolding may_create put
create_file os d p = may_create os (Context.create_file p) p >> ok (put d p [])

unfoldable pub close_file : Os → Bytes → Result (Unit {0})
close_file os p = guard (os.closes p) file_error

-- What a command leaves: the files, what it has printed, and its error.
pub record Outcome : Type 0 where
  pub disk : Disk
  pub printed : Bytes
  pub result : Result (Unit {0})

unfoldable pub or_quit {ℓ} : {A : Type ℓ} → Disk → Result A → (A → Outcome) → Outcome
or_quit d (ok a) k = k a
or_quit d (err e) k = record { disk = d; printed = []; result = err e }
or_quit d panic k = record { disk = d; printed = []; result = panic }
or_quit d stuck k = record { disk = d; printed = []; result = stuck }

-- `os.ReadFile`
unfoldable pub read_file : Os → Context → Disk → Bytes → Result Bytes
unfolding open_file content_of
read_file os c d p = open_file os c d p >> elim (os.ending p) [
  | Ending.at_end ↦ ok (content_of d p)
  | Ending.broken ↦ err (wrap c io_fault)
]

-- `os.WriteFile`, which makes the file empty before it writes.
unfoldable pub write_whole : Os → Disk → Bytes → Bytes → Outcome
unfolding may_create put write close_file
write_whole os d p content =
    let c = Context.write_to p in
    or_quit d (may_create os c p) λ _.
      let w = write (os.writer p) [] content in
      record {
        disk = put d p w.out;
        printed = [];
        result = in_context c (w.result >> close_file os p);
      }

-- The flags of `create`.
pub record CreateFlags : Type 0 where
  pub compression : Bytes
  pub chunk_size : ℤ
  pub dict_path : Bytes

-- Their defaults, and that of --max-size.
abbrev pub default_flags : CreateFlags
default_flags = record { compression = codes "zstd"; chunk_size = pos (64 * 1024); dict_path = [] }

abbrev pub default_max_dict_size : ℕ
default_max_dict_size = 112640

-- `if x <= 0 { return err }`
unfoldable pub above_zero : ℤ → Error → Result ℕ
unfolding positive
above_zero x e = elim (positive x) [ none ↦ err e | some n ↦ ok n ]

-- `if dictPath != ""`
unfoldable pub load_dict : Os → Disk → Bytes → Result Bytes
unfolding read_file
load_dict os d [] = ok []
load_dict os d (b ∷ p) = read_file os (Context.read_dictionary_file (b ∷ p)) d (b ∷ p)

-- `create`: the input is read when the output has been made, and is made empty by this if the two
-- are one file.
unfoldable pub create_command : Os → Hashes → Zstd → CreateFlags → Bytes → Bytes → Disk → Outcome
unfolding parse_compression above_zero load_dict open_file create_file content_of put close_file
    Cli.create
create_command os h z flags file out d = or_quit d (parse_compression flags.compression) λ ct.
    or_quit d (above_zero flags.chunk_size (chunk_size_not_positive flags.chunk_size)) λ n.
      or_quit d (load_dict os d flags.dict_path) λ dict.
        or_quit d (open_file os (Context.open_file file) d file) λ _.
          or_quit d (create_file os d out) λ d₁.
            let w =
              Cli.create h z n ct dict (os.writer out) [] (os.ending file) (content_of d₁ file) in
            record { disk = put d₁ out w.out; printed = []; result = w.result >> close_file os out }

-- `extract`: the error of the deferred `Close` is dropped.
unfoldable pub extract_command : Os → Hashes → Zstd → Bytes → Bytes → Disk → Outcome
unfolding open_file create_file content_of put Cli.extract
extract_command os h z file out d = or_quit d (open_file os (Context.open_file file) d file) λ _.
    or_quit d (create_file os d out) λ d₁.
      let w = Cli.extract h z (os.writer out) (os.ending file) (content_of d₁ file) [] in
      record { disk = put d₁ out w.out; printed = []; result = w.result }

-- `info`
unfoldable pub info_command : Os → Bytes → Disk → Outcome
unfolding open_file content_of report_lead
info_command os file d = or_quit d (open_file os (Context.open_file file) d file) λ _.
    let r = report_lead os.stdout file (os.ending file) (content_of d file) [] in
    record { disk = d; printed = r.out; result = r.result }

-- `header`, by `writeDetachedHeader`
unfoldable pub header_command : Os → Bytes → Bytes → Disk → Outcome
unfolding open_file content_of detached_header write_whole
header_command os file out d = or_quit d (open_file os (Context.open_file file) d file) λ _.
    or_quit d (detached_header (os.ending file) (content_of d file))
      λ header. write_whole os d out header

-- `gen-zdict`
unfoldable pub gen_zdict_command : Os → Zstd → Trainer → ℤ → Bytes → Bytes → Disk → Outcome
unfolding open_file content_of above_zero collect_chunk_samples generate_dict write_whole
gen_zdict_command os z t max_size file out d =
    or_quit d (above_zero max_size (max_size_not_positive max_size)) λ n.
      or_quit d (open_file os (Context.open_file file) d file) λ _.
        or_quit d (collect_chunk_samples z (os.ending file) (content_of d file))
          λ p. or_quit d (generate_dict t p.0 n) λ dict. write_whole os d out dict

-- The commands that work on files alone, with their arguments: `download` and `delta-size` are in
-- Cli.Remote.
pub data Command : Type 0 where
  to_create : CreateFlags → Bytes → Bytes → Command
  to_extract to_header : Bytes → Bytes → Command
  to_info : Bytes → Command
  to_gen_zdict : ℤ → Bytes → Bytes → Command

unfoldable pub run : Os → Hashes → Zstd → Trainer → Command → Disk → Outcome
unfolding create_command extract_command info_command header_command gen_zdict_command
run os h z t (to_create flags file out) d = create_command os h z flags file out d
run os h z t (to_extract file out) d = extract_command os h z file out d
run os h z t (to_header file out) d = header_command os file out d
run os h z t (to_info file) d = info_command os file d
run os h z t (to_gen_zdict max_size file out) d = gen_zdict_command os z t max_size file out d
