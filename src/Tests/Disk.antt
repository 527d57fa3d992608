-- ===== src/Tests/Disk.antt =====
-- The commands on the files of a small disk.
use mathlib.Core.Path.{subst}
use zchunk.Prelude.{
  Bool-cases, inl, inr, ap, ◌==◌, if◌then◌else◌, ◌≤◌, ◌≡◌, refl, true, none, some, List, [], ◌∷◌,
  length, flatten, arith,
}
use zchunk.Go.Error.{Context, eof, wrap}
use zchunk.Go.Int.{pos, positive}
use zchunk.Go.Result.{ok, err, max_int}
use zchunk.Go.Reader.{Bytes, at_end}
use zchunk.Go.Writer.{buffer}
use zchunk.Go.Text.{codes}
use zchunk.Checksum.{size}
use zchunk.Preface.{valid}
use zchunk.Codec.{new_chunk_encoder, dict_option}
use zchunk.Builder.{new_builder}
use zchunk.Dict.{Trainer, generate_dict}
use zchunk.Cli
use zchunk.Cli.Chunking.{Fixed}
use zchunk.Cli.Names.{parse_compression}
use zchunk.Cli.Report.Complete.{Reports, report_lead-Reports}
use zchunk.Cli.Files.{
  Disk, Os, load_dict, write_whole, or_quit, CreateFlags, default_flags, default_max_dict_size,
  to_create, to_extract, to_gen_zdict, to_header, run,
}
use zchunk.Cli.Files.Frame.{writes_to, run_frame}
use zchunk.Cli.Files.Refusals.{Refuses, input_of, run-Refuses, run_in_place}
use zchunk.Cli.Files.RoundTrip.{Works, run_extract-run_create, run_gen_zdict-run_create}
use zchunk.Cli.Files.{Command}
use zchunk.Cli.Files.Views.{
  View, plain, archive, Views, see, no_path, creates, Refines, Shows, as_plain, Small,
}
use zchunk.Cli.Files.Views.Sequences.{finished, first, after, AllSucceed, after-Refines}
use zchunk.Tests.{toy_hashes, toy_zstd}
use zchunk.Tests.Transfer.{a_file}

abbrev an_os : Os
an_os = record {
  openable = λ p. true;
  creatable = λ p. true;
  closes = λ p. true;
  ending = λ p. at_end;
  writer = λ p. buffer;
  stdout = buffer;
}

abbrev works : {p : Bytes} → Works an_os p
works = record { opens = refl; makes = refl; closes = refl; ends = refl; takes = refl }

abbrev toy_trainer : Trainer
toy_trainer = record { build_dict = λ o. ok o.history; fnv32a = λ b. length b }

abbrev old_path : Bytes
old_path = codes "a"

abbrev new_path : Bytes
new_path = codes "b"

abbrev last_path : Bytes
last_path = codes "c"

abbrev an_input : Bytes
an_input = 1 ∷ 2 ∷ 3 ∷ []

-- One file.
abbrev a_disk : Disk
a_disk [] = none
a_disk (c ∷ p) = if c == 97 then some an_input else none

abbrev some_flags : CreateFlags
some_flags = record { compression = codes "zstd"; chunk_size = pos 2; dict_path = [] }

run_frame_example :
    (run an_os toy_hashes toy_zstd toy_trainer (to_create some_flags old_path new_path) a_disk).disk
      old_path
    ≡ some an_input
unfolding writes_to
run_frame_example =
    run_frame an_os toy_hashes toy_zstd toy_trainer (to_create some_flags old_path new_path) a_disk
      old_path refl

run-Refuses_example :
    Refuses a_disk (run an_os toy_hashes toy_zstd toy_trainer (to_header new_path last_path) a_disk)
unfolding input_of
run-Refuses_example =
    run-Refuses an_os toy_hashes toy_zstd toy_trainer (to_header new_path last_path) a_disk refl

run_in_place_example :
    let e = run an_os toy_hashes toy_zstd toy_trainer (to_extract old_path old_path) a_disk in
    let c =
      run an_os toy_hashes toy_zstd toy_trainer (to_create some_flags old_path old_path) a_disk in
    (e.disk old_path ≡ some [])
    × (e.result ≡ err (wrap Context.lead_id eof))
    × (c.disk old_path ≡ some (Cli.create toy_hashes toy_zstd 2 2 [] buffer [] at_end []).out)
unfolding parse_compression positive load_dict
run_in_place_example =
    run_in_place an_os toy_hashes toy_zstd toy_trainer a_disk old_path an_input some_flags refl refl
      refl refl refl refl

run_extract-run_create_example :
    let o =
      run an_os toy_hashes toy_zstd toy_trainer
        (to_create default_flags old_path new_path)
        a_disk in
    (f : Bytes) × (o.result ≡ ok tt)
    × (o.disk new_path ≡ some f)
    × (length f ≤ max_int
        → let o' =
            run an_os toy_hashes toy_zstd toy_trainer (to_extract new_path last_path) o.disk in
          (o'.result ≡ ok tt) × (o'.disk last_path ≡ some an_input))
unfolding parse_compression positive load_dict new_builder valid size new_chunk_encoder dict_option
run_extract-run_create_example =
    run_extract-run_create an_os toy_hashes toy_zstd toy_trainer a_disk default_flags old_path
      new_path last_path an_input works works works refl refl refl refl refl refl refl (omega arith)
      (omega arith)

run_gen_zdict-run_create_example :
    let o =
      run an_os toy_hashes toy_zstd toy_trainer (to_create some_flags old_path new_path) a_disk in
    (chunks : List Bytes) × (f : Bytes) × Fixed 2 chunks
    × (flatten chunks ≡ an_input)
    × (o.disk new_path ≡ some f)
    × (length f ≤ max_int
        → run an_os toy_hashes toy_zstd toy_trainer
            (to_gen_zdict (pos default_max_dict_size) new_path last_path)
            o.disk
          ≡ or_quit o.disk
              (generate_dict toy_trainer chunks default_max_dict_size)
              λ trained. write_whole an_os o.disk last_path trained)
unfolding parse_compression positive load_dict new_builder valid size new_chunk_encoder dict_option
run_gen_zdict-run_create_example =
    run_gen_zdict-run_create an_os toy_hashes toy_zstd toy_trainer a_disk some_flags old_path
      new_path last_path an_input (pos default_max_dict_size) works works refl refl refl refl refl
      refl refl (omega arith) (omega arith)

report_lead-Reports_example : Reports old_path at_end a_file (7 ∷ [])
report_lead-Reports_example = report_lead-Reports old_path at_end a_file (7 ∷ [])

-- The plain file of the disk.
abbrev a_view : Views
a_view [] = none
a_view (c ∷ p) = if c == 97 then some (plain an_input) else none

shown_by :
    (p : Bytes) {v : View}
    → a_view p ≡ some v
    → (f : Bytes) × (a_disk p ≡ some f) × Shows toy_hashes toy_zstd v f
shown_by [] h = cc
shown_by (c ∷ p) {v} h = elim (Bool-cases (c == 97)) [
  | inl here ↦
      let same : plain an_input ≡ v = some_inj (rw here at h) in
      (
        an_input,
        rw here refl,
        subst (λ w. Shows toy_hashes toy_zstd w an_input) same (as_plain an_input),
      )
  | inr other ↦ cc (rw other at h)
]
  where
    some_inj : {x y : View} → some x ≡ some y → x ≡ y
    some_inj e = cc

a_view-Refines : Refines toy_hashes toy_zstd a_disk a_view
a_view-Refines = record { shows = λ p seen. shown_by p seen }

a_disk-Small : Small a_disk
a_disk-Small [] f h = cc
a_disk-Small (c ∷ p) f h = elim (Bool-cases (c == 97)) [
  | inl here ↦ let same : an_input ≡ f = some_inj (rw here at h) in omega (arith, ap length same)
  | inr other ↦ cc (rw other at h)
]
  where
    some_inj : {x y : Bytes} → some x ≡ some y → x ≡ y
    some_inj e = cc

after-Refines_example :
    let cs : List Command = to_create default_flags old_path new_path ∷ [] in
    AllSucceed an_os toy_hashes toy_zstd toy_trainer cs a_disk
    × Refines toy_hashes toy_zstd
        (after an_os toy_hashes toy_zstd toy_trainer cs a_disk)
        (see a_view new_path (archive an_input))
unfolding parse_compression positive new_builder valid size new_chunk_encoder dict_option
after-Refines_example =
    after-Refines an_os toy_hashes toy_zstd toy_trainer
      (to_create default_flags old_path new_path ∷ []) a_disk a_view
      (see a_view new_path (archive an_input)) (λ p. works) a_view-Refines
      (first (to_create default_flags old_path new_path)
        (creates default_flags old_path new_path an_input refl refl refl refl no_path refl)
        finished)
      (a_disk-Small, tt)
