-- ===== src/Cli/Files/Views.antt =====
-- Sequences of commands against an abstract disk, whose files are plain contents and archives of
-- contents: `create` makes an archive, and `extract` gives back what it is an archive of.
pub mod Sequences
use mathlib.Core.Path.{subst}
use zchunk.Prelude.{
  ◌%◌, ℕ, ◌≤◌, ◌<◌, ◌≡◌, ◌∙◌, sym, ap, refl, Bool, true, false, Bool-cases, inl, inr, ◌⊎◌, Option,
  none, some, List, [], ◌∷◌, ◌++◌, length, flatten, if◌then◌else◌, arith,
}
use zchunk.Go.Error.{Context}
use zchunk.Go.Int.{positive}
use zchunk.Go.Result.{Result, ok, max_int, u64_mod}
use zchunk.Go.Reader.{Bytes, at_end}
use zchunk.Checksum.{Hashes, sha256}
use zchunk.Preface.{CompressionType}
use zchunk.Lead.{equal}
use zchunk.Lead.RoundTrip.{equal_iff}
use zchunk.Codec.{Zstd}
use zchunk.Builder.{Builder, new_builder}
use zchunk.Dict.{Trainer}
use zchunk.Cli.Names.{parse_compression}
use zchunk.Cli.RoundTrip.{Created, create-Created, extract-Created}
use zchunk.Cli.Files.Steps.{put_same, put_other, open_file_found, content_of-some}
use zchunk.Cli.Files.RoundTrip.{Works, create_command-done, extract_command-done, positive-lt}
use zchunk.Cli.Files.{
  Disk, Os, put, load_dict, read_file, Outcome, CreateFlags, Command, to_create, to_extract, run,
}

-- What a file is to its user.
pub data View : Type 0 where
  plain archive : Bytes → View

-- The abstract disk.
abbrev pub Views : Type 0
Views = Bytes → Option View

unfoldable pub see : Views → Bytes → View → Views
unfolding equal
see a p v q = if equal p q then some v else a q

-- The dictionary that the flags name: none, or the plain content of a file.
pub data Named (a : Views) : Bytes → Bytes → Type 0 where
  no_path : Named a [] []
  file_of :
      (c : ℕ) (p : Bytes) {dict : Bytes} → a (c ∷ p) ≡ some (plain dict) → Named a (c ∷ p) dict

-- What the two commands mean: the output of a command is not its input.
pub data Means (h : Hashes) (z : Zstd) (a : Views) : Command → Views → Type 0 where
  creates :
      (flags : CreateFlags) (file out s : Bytes) {ct : CompressionType} {n : ℕ} {dict : Bytes}
      {b₀ : Builder}
      → a file ≡ some (plain s)
      → equal out file ≡ false
      → parse_compression flags.compression ≡ ok ct
      → positive flags.chunk_size ≡ some n
      → Named a flags.dict_path dict
      → new_builder h z ct sha256 dict ≡ ok b₀
      → Means h z a (to_create flags file out) (see a out (archive s))
  extracts :
      (file out s : Bytes)
      → a file ≡ some (archive s)
      → equal out file ≡ false
      → Means h z a (to_extract file out) (see a out (plain s))

-- The bytes of a file with this view.
pub data Shows (h : Hashes) (z : Zstd) : View → Bytes → Type 0 where
  as_plain : (s : Bytes) → Shows h z (plain s) s
  as_archive :
      {n : ℕ} {ct : CompressionType} {dict : Bytes} (s : Bytes) (c : Created h z n ct dict s)
      → Shows h z (archive s) (c.header ++ c.builder.body)

-- Every file with a view is there, and has it.
pub record Refines (h : Hashes) (z : Zstd) (d : Disk) (a : Views) : Type 0 where
  pub shows : (p : Bytes) {v : View} → a p ≡ some v → (f : Bytes) × (d p ≡ some f) × Shows h z v f

-- All files are shorter than the largest slice.
abbrev pub Small : Disk → Type 0
Small d = (p f : Bytes) → d p ≡ some f → length f < max_int

see_cases :
    (a : Views) (p q : Bytes) (v : View) {w : View}
    → see a p v q ≡ some w
    → ((equal p q ≡ true) × (v ≡ w)) ⊎ ((equal p q ≡ false) × (a q ≡ some w))
unfolding see
see_cases a p q v h = elim (Bool-cases (equal p q)) [
  | inl same ↦ inl (same, some_inj (ap (λ b. if b then some v else a q) (sym same) ∙ h))
  | inr other ↦ inr (other, ap (λ b. if b then some v else a q) (sym other) ∙ h)
]
  where
    some_inj : {x y : View} → some x ≡ some y → x ≡ y
    some_inj e = cc

-- `os.Create` and the writing behind it give one file a new view.
Refines-put :
    (h : Hashes) (z : Zstd) (d : Disk) (a : Views) (p f : Bytes) (v : View)
    → Refines h z d a
    → Shows h z v f
    → Refines h z (put (put d p []) p f) (see a p v)
Refines-put h z d a p f v r shown = record {
  shows = λ q seen. elim (see_cases a p q v seen) [
    | inl (same, known) ↦
        let e = (equal_iff p q).0 same in
        (
          f,
          ap (put (put d p []) p f) (sym e) ∙ put_same (put d p []) p f,
          subst (λ w. Shows h z w f) known shown,
        )
    | inr (other, before) ↦
        let (g, there, shows) = r.shows q before in
        (g, put_other (put d p []) p q f other ∙ put_other d p q [] other ∙ there, shows)
  ];
}

-- What a view says of the bytes.
Shows-plain :
    (h : Hashes) (z : Zstd) (s : Bytes) {v : View} {f : Bytes} → Shows h z v f → v ≡ plain s → f ≡ s
Shows-plain h z s (as_plain s') e = cc
Shows-plain h z s (as_archive s' c) e = cc

record Archived (h : Hashes) (z : Zstd) (s f : Bytes) : Type 0 where
  pub size : ℕ
  pub type_of : CompressionType
  pub dict : Bytes
  pub created : Created h z size type_of dict s
  pub same : f ≡ created.header ++ created.builder.body

Archived-here :
    (h : Hashes) (z : Zstd) (n : ℕ) (ct : CompressionType) (dict s : Bytes)
    (c : Created h z n ct dict s)
    → Archived h z s (c.header ++ c.builder.body)
Archived-here h z n ct dict s c = record {
  size = n;
  type_of = ct;
  dict = dict;
  created = c;
  same = refl;
}

archive_inj : {x y : Bytes} → archive x ≡ archive y → x ≡ y
archive_inj e = cc

Shows-archive :
    (h : Hashes) (z : Zstd) (s : Bytes) {v : View} {f : Bytes}
    → Shows h z v f
    → v ≡ archive s
    → Archived h z s f
Shows-archive h z s (as_plain s') e = cc
Shows-archive h z s (as_archive {n} {ct} {dict} s' c) e =
    subst (λ x. Archived h z x (c.header ++ c.builder.body)) (archive_inj e)
      (Archived-here h z n ct dict s' c)

read_file_found :
    (os : Os) (c : Context) (d : Disk) (p : Bytes) {s : Bytes}
    → d p ≡ some s
    → Works os p
    → read_file os c d p ≡ ok s
unfolding read_file
read_file_found os c d p found w =
    rw (open_file_found os c d p found w.opens, w.ends) (ap ok (content_of-some d p found))

-- The dictionary that `create` loads is the plain content of the file.
Named-load_dict :
    (os : Os) (h : Hashes) (z : Zstd) (d : Disk) (a : Views) (p dict : Bytes)
    → ((q : Bytes) → Works os q)
    → Refines h z d a
    → Small d
    → Named a p dict
    → (load_dict os d p ≡ ok dict) × (length dict ≤ max_int)
unfolding load_dict
Named-load_dict os h z d a p dict works r small no_path = (refl, omega arith)
Named-load_dict os h z d a p dict works r small (file_of x y seen) =
    let (f, there, shows) = r.shows (x ∷ y) seen in
    let same = Shows-plain h z dict shows refl in
    (
      read_file_found os _ d (x ∷ y) (there ∙ ap some same) (works (x ∷ y)),
      omega (arith, ap length same, small (x ∷ y) f there),
    )

-- A command does to the disk what it means.
pub run-Means :
    (os : Os) (h : Hashes) (z : Zstd) (t : Trainer) (c : Command) (d : Disk) (a a' : Views)
    → ((p : Bytes) → Works os p)
    → Refines h z d a
    → Small d
    → Means h z a c a'
    → ((run os h z t c d).result ≡ ok tt) × Refines h z (run os h z t c d).disk a'
unfolding run
run-Means os h z t c d a a' works r small
      (creates flags file out s seen other parsed sized named started) =
    let (f, there, shows) = r.shows file seen in
    let found = there ∙ ap some (Shows-plain h z s shows refl) in
    let (loaded, few_dict) = Named-load_dict os h z d a flags.dict_path _ works r small named in
    let made =
      create-Created h z _ _ _ s started (positive-lt flags.chunk_size sized) (small file s found)
        few_dict in
    let done =
      create_command-done os h z d flags file out s made (works file) (works out) other found parsed
        sized loaded in
    (
      ap (λ (o : Outcome). o.result) done,
      subst (λ (o : Outcome). Refines h z o.disk (see a out (archive s))) (sym done)
          (Refines-put h z d a out _ (archive s) r (as_archive s made)),
    )
run-Means os h z t c d a a' works r small (extracts file out s seen other) =
    let (f, there, shows) = r.shows file seen in
    let x = Shows-archive h z s shows refl in
    let few = small file f there in
    let content =
      extract-Created h z x.size x.type_of x.dict s [] x.created
        (omega (arith, ap length x.same, few))
      ∙ ap (λ b. record { out = b; count = length b % u64_mod; result = ok tt }) x.created.whole in
    let done =
      extract_command-done os h z d file out (x.created.header ++ x.created.builder.body) s
        (works file) (works out) other (there ∙ ap some x.same) content in
    (
      ap (λ (o : Outcome). o.result) done,
      subst (λ (o : Outcome). Refines h z o.disk (see a out (plain s))) (sym done)
          (Refines-put h z d a out s _ r (as_plain s)),
    )
