-- ===== src/Cli/Files/Refusals.antt =====
-- Commands without their input, and commands whose output is their input.
use zchunk.Prelude.{
  ℕ, ◌≡◌, ◌∙◌, ap, refl, Bool, true, false, none, some, [], ◌∷◌, if◌then◌else◌, Option-cases,
  Bool-cases, inl, inr,
}
use zchunk.Go.Error.{chunk_size_not_positive, Error, Context, wrap, io_fault, file_error, eof}
use zchunk.Go.Int.{ℤ, positive}
use zchunk.Go.Result
use zchunk.Go.Result.{Result, ok, err, guard}
use zchunk.Go.Reader.{Bytes, Ending, at_end, broken, ending_error, read_full}
use zchunk.Go.Writer.{Writer}
use zchunk.Checksum.{Hashes}
use zchunk.Preface.{CompressionType}
use zchunk.Go.Text.{codes}
use zchunk.Lead.{equal, read_lead}
use zchunk.Codec.{Zstd}
use zchunk.Dict.{Trainer}
use zchunk.Cli
use zchunk.Cli.{read_headers}
use zchunk.Cli.Names.{parse_compression}
use zchunk.Cli.Files.Steps.{
  above_zero-some, put_same, content_of-some, open_file_found, create_file_made,
}
use zchunk.Cli.Files.{
  Disk, Os, above_zero, put, content_of, open_file, read_file, load_dict, Outcome, or_quit,
  CreateFlags, create_command, extract_command, info_command, header_command, gen_zdict_command,
  Command, to_create, to_extract, to_header, to_info, to_gen_zdict, run,
}

-- A command that fails before it has done anything.
pub record Refuses (d : Disk) (o : Outcome) : Type 0 where
  pub why : Error
  pub same : o ≡ record { disk = d; printed = []; result = err why }

-- A step that either goes on or returns an error.
pub data Decided {ℓ} {A : Type ℓ} : Result A → Type ℓ where
  goes_on : (a : A) → Decided (ok a)
  stops : (e : Error) → Decided (err e)

or_quit-Refuses {ℓ} :
    {A : Type ℓ} {d : Disk} {r : Result A} {k : A → Outcome}
    → Decided r
    → ((a : A) → Refuses d (k a))
    → Refuses d (or_quit d r k)
unfolding or_quit
or_quit-Refuses (goes_on a) h = h a
or_quit-Refuses (stops e) h = record { why = e; same = refl }

if-Decided {ℓ} :
    {A : Type ℓ} (b : Bool) {r r' : Result A}
    → Decided r
    → Decided r'
    → Decided (if b then r else r')
if-Decided true x y = x
if-Decided false x y = y

>>-Decided {ℓ} :
    {A : Type ℓ} {m : Result (Unit {0})} {r : Result A}
    → Decided m
    → Decided r
    → Decided (Result.◌>>◌ m r)
>>-Decided (goes_on a) y = y
>>-Decided (stops e) y = stops e

guard-Decided : (b : Bool) (e : Error) → Decided (guard b e)
guard-Decided true e = goes_on tt
guard-Decided false e = stops e

parse_compression-Decided : (name : Bytes) → Decided (parse_compression name)
unfolding parse_compression
parse_compression-Decided name =
    if-Decided (equal name (codes "none")) (goes_on _)
      (if-Decided (equal name (codes "zstd")) (goes_on _) (stops _))

read_file-Decided : (os : Os) (c : Context) (d : Disk) (p : Bytes) → Decided (read_file os c d p)
unfolding read_file open_file
read_file-Decided os c d p = >>-Decided (guard-Decided _ _) (content (os.ending p))
  where
    content :
        (end : Ending)
        → Decided (elim end as (λ _. Result Bytes) [
          | at_end ↦ ok (content_of d p)
          | broken ↦ err (wrap c io_fault)
        ])
    content at_end = goes_on _
    content broken = stops _

load_dict-Decided : (os : Os) (d : Disk) (p : Bytes) → Decided (load_dict os d p)
unfolding load_dict
load_dict-Decided os d [] = goes_on []
load_dict-Decided os d (b ∷ p) = read_file-Decided os _ d (b ∷ p)

above_zero-Decided : (x : ℤ) (e : Error) → Decided (above_zero x e)
unfolding above_zero
above_zero-Decided x e = elim (Option-cases (positive x)) [
  | inl refused ↦ rw (refused, above_zero) (stops e)
  | inr (n, accepted) ↦ rw (accepted, above_zero) (goes_on n)
]

open_file_missing :
    (os : Os) (c : Context) (d : Disk) (p : Bytes)
    → d p ≡ none
    → open_file os c d p ≡ err (wrap c file_error)
unfolding open_file
open_file_missing os c d p missing = elim (Bool-cases (os.openable p)) [
  | inl may ↦
      rw may (
        ap (λ o. guard (elim o [ none ↦ false | some content ↦ true ]) (wrap c file_error)) missing)
  | inr not_allowed ↦ rw not_allowed refl
]

open_missing :
    (os : Os) (c : Context) (d : Disk) (p : Bytes) (k : Unit {0} → Outcome)
    → d p ≡ none
    → Refuses d (or_quit d (open_file os c d p) k)
unfolding or_quit
open_missing os c d p k missing = record {
  why = wrap c file_error;
  same = ap (λ r. or_quit d r k) (open_file_missing os c d p missing);
}

-- The path of a command's input.
unfoldable pub input_of : Command → Bytes
input_of (to_create flags file out) = file
input_of (to_extract file out) = file
input_of (to_header file out) = file
input_of (to_info file) = file
input_of (to_gen_zdict max_size file out) = file

-- Without its input a command fails, prints nothing and leaves every file as it was.
pub run-Refuses :
    (os : Os) (h : Hashes) (z : Zstd) (t : Trainer) (c : Command) (d : Disk)
    → d (input_of c) ≡ none
    → Refuses d (run os h z t c d)
unfolding run input_of create_command extract_command info_command header_command gen_zdict_command
run-Refuses os h z t (to_create flags file out) d missing =
    or_quit-Refuses (parse_compression-Decided flags.compression) λ ct.
      or_quit-Refuses (above_zero-Decided flags.chunk_size _) λ n.
        or_quit-Refuses (load_dict-Decided os d flags.dict_path)
          λ dict. open_missing os _ d file _ missing
run-Refuses os h z t (to_extract file out) d missing = open_missing os _ d file _ missing
run-Refuses os h z t (to_header file out) d missing = open_missing os _ d file _ missing
run-Refuses os h z t (to_info file) d missing = open_missing os _ d file _ missing
run-Refuses os h z t (to_gen_zdict max_size file out) d missing =
    or_quit-Refuses (above_zero-Decided max_size _) λ n. open_missing os _ d file _ missing

extract_nothing :
    (h : Hashes) (z : Zstd) (w : Writer) (end : Ending) (out : Bytes)
    → Cli.extract h z w end [] out
      ≡ record { out = out; count = 0; result = err (wrap Context.lead_id (ending_error end eof)) }
unfolding Cli.extract read_headers read_lead read_full
extract_nothing h z w end out = refl

-- `extract` and `create` with one path for FILE and OUT, on a file that can be opened and made empty:
-- `extract` finds the file empty, fails and leaves it so; `create` with flags that it accepts leaves
-- what it makes of an empty input, whatever the file held.
pub run_in_place :
    (os : Os) (h : Hashes) (z : Zstd) (t : Trainer) (d : Disk) (p s : Bytes) (flags : CreateFlags)
    {ct : CompressionType} {n : ℕ} {dict : Bytes}
    → d p ≡ some s
    → os.openable p ≡ true
    → os.creatable p ≡ true
    → parse_compression flags.compression ≡ ok ct
    → positive flags.chunk_size ≡ some n
    → load_dict os d flags.dict_path ≡ ok dict
    → ((run os h z t (to_extract p p) d).disk p ≡ some [])
      × ((run os h z t (to_extract p p) d).result
          ≡ err (wrap Context.lead_id (ending_error (os.ending p) eof)))
      × ((run os h z t (to_create flags p p) d).disk p
          ≡ some (Cli.create h z n ct dict (os.writer p) [] (os.ending p) []).out)
unfolding run extract_command create_command or_quit
run_in_place os h z t d p s flags {ct} {n} {dict} found opens makes parsed sized loaded =
    let opened = open_file_found os (Context.open_file p) d p found opens in
    let made = create_file_made os d p makes in
    let size = above_zero-some flags.chunk_size (chunk_size_not_positive flags.chunk_size) sized in
    let nothing = extract_nothing h z (os.writer p) (os.ending p) [] in
    let empty = content_of-some (put d p []) p (put_same d p []) in
    (
      rw (opened, made) (rw empty (rw nothing (put_same (put d p []) p []))),
      rw (opened, made) (rw empty (rw nothing refl)),
      rw (parsed, size, loaded)
          (rw (opened, made)
            (put_same (put d p []) p _
              ∙ ap (λ x. some (Cli.create h z n ct dict (os.writer p) [] (os.ending p) x).out)
                  empty)),
    )
