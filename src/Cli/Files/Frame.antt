-- ===== src/Cli/Files/Frame.antt =====
-- What a command leaves alone, and what it destroys.
use zchunk.Prelude.{◌≡◌, ◌∙◌, sym, ap, refl, Bool, false, []}
use zchunk.Go.Result.{Result, ok, err, panic, stuck, guard-eq-ok, ok-injective}
use zchunk.Go.Reader.{Bytes}
use zchunk.Checksum.{Hashes}
use zchunk.Lead.{equal}
use zchunk.Codec.{Zstd}
use zchunk.Dict.{Trainer}
use zchunk.Cli.Files.Steps.{put_other}
use zchunk.Cli.Files.{
  Disk, Os, put, may_create, create_file, write_whole, Outcome, or_quit, create_command,
  extract_command, info_command, header_command, gen_zdict_command, Command, to_create, to_extract,
  to_header, to_info, to_gen_zdict, run,
}

-- Whether a path is that of the command's output.
unfoldable pub writes_to : Command → Bytes → Bool
unfolding equal
writes_to (to_create flags file out) q = equal out q
writes_to (to_extract file out) q = equal out q
writes_to (to_header file out) q = equal out q
writes_to (to_info file) q = false
writes_to (to_gen_zdict max_size file out) q = equal out q

-- An outcome with the file `q` as it was.
pub record Keeps (d : Disk) (q : Bytes) (o : Outcome) : Type 0 where
  pub same : o.disk q ≡ d q

or_quit-Keeps {ℓ} :
    {A : Type ℓ} {d : Disk} {q : Bytes} {r : Result A} {k : A → Outcome}
    → ((a : A) → r ≡ ok a → Keeps d q (k a))
    → Keeps d q (or_quit d r k)
unfolding or_quit
or_quit-Keeps {r = ok a} h = h a refl
or_quit-Keeps {r = err e} h = record { same = refl }
or_quit-Keeps {r = panic} h = record { same = refl }
or_quit-Keeps {r = stuck} h = record { same = refl }

put-Keeps :
    (d d' : Disk) (p q content printed : Bytes) (r : Result (Unit {0}))
    → equal p q ≡ false
    → d' q ≡ d q
    → Keeps d q (record { disk = put d' p content; printed = printed; result = r })
put-Keeps d d' p q content printed r other e = record { same = put_other d' p q content other ∙ e }

write_whole-Keeps :
    (os : Os) (d : Disk) (p q content : Bytes)
    → equal p q ≡ false
    → Keeps d q (write_whole os d p content)
unfolding write_whole
write_whole-Keeps os d p q content other = or_quit-Keeps λ _ _. put-Keeps _ _ _ _ _ _ _ other refl

create_file-other :
    (os : Os) (d : Disk) (p q : Bytes) {d' : Disk}
    → equal p q ≡ false
    → create_file os d p ≡ ok d'
    → d' q ≡ d q
unfolding create_file may_create
create_file-other os d p q other h =
    let (_, made) = guard-eq-ok (os.creatable p) _ _ h in
    ap (λ (x : Disk). x q) (sym (ok-injective made)) ∙ put_other d p q [] other

run-Keeps :
    (os : Os) (h : Hashes) (z : Zstd) (t : Trainer) (c : Command) (d : Disk) (q : Bytes)
    → writes_to c q ≡ false
    → Keeps d q (run os h z t c d)
unfolding run writes_to create_command extract_command info_command header_command gen_zdict_command
run-Keeps os h z t (to_create flags file out) d q other = or_quit-Keeps λ ct _. or_quit-Keeps λ n _.
    or_quit-Keeps λ dict _. or_quit-Keeps λ _ _.
      or_quit-Keeps λ d₁ e. put-Keeps _ _ _ _ _ _ _ other (create_file-other os d out q other e)
run-Keeps os h z t (to_extract file out) d q other = or_quit-Keeps λ _ _.
    or_quit-Keeps λ d₁ e. put-Keeps _ _ _ _ _ _ _ other (create_file-other os d out q other e)
run-Keeps os h z t (to_header file out) d q other =
    or_quit-Keeps λ _ _. or_quit-Keeps λ header _. write_whole-Keeps os d out q header other
run-Keeps os h z t (to_info file) d q other = or_quit-Keeps λ _ _. record { same = refl }
run-Keeps os h z t (to_gen_zdict max_size file out) d q other = or_quit-Keeps λ n _.
    or_quit-Keeps
      λ _ _. or_quit-Keeps λ p _. or_quit-Keeps λ dict _. write_whole-Keeps os d out q dict other

-- A command changes no file but its output, whatever goes wrong: every other path holds what it held
-- before, its input too, and `info` changes none.
pub run_frame :
    (os : Os) (h : Hashes) (z : Zstd) (t : Trainer) (c : Command) (d : Disk) (q : Bytes)
    → writes_to c q ≡ false
    → (run os h z t c d).disk q ≡ d q
run_frame os h z t c d q other = (run-Keeps os h z t c d q other).same
