-- ===== src/Cli/Files/Views/Sequences.antt =====
-- The commands, one after the other, refine the abstract disk.
use zchunk.Prelude.{◌≡◌, List, [], ◌∷◌}
use zchunk.Go.Result.{ok}
use zchunk.Go.Reader.{Bytes}
use zchunk.Checksum.{Hashes}
use zchunk.Codec.{Zstd}
use zchunk.Dict.{Trainer}
use zchunk.Cli.Files.RoundTrip.{Works}
use zchunk.Cli.Files.{Disk, Os, Command, run}
use zchunk.Cli.Files.Views.{Views, Means, Refines, Small, run-Means}

-- What a list of commands means.
pub data AllMean (h : Hashes) (z : Zstd) : Views → List Command → Views → Type 0 where
  finished : {a : Views} → AllMean h z a [] a
  first :
      (c : Command) {cs : List Command} {a b a' : Views}
      → Means h z a c b
      → AllMean h z b cs a'
      → AllMean h z a (c ∷ cs) a'

module _ (os : Os) (h : Hashes) (z : Zstd) (t : Trainer) where
  -- The disk behind the commands.
  unfoldable pub after : List Command → Disk → Disk
  unfolding run
  after [] d = d
  after (c ∷ cs) d = after cs (run os h z t c d).disk

  -- All files are small in front of each command, and each command succeeds.
  abbrev pub AllSmall : List Command → Disk → Type 0
  AllSmall [] d = Unit
  AllSmall (c ∷ cs) d = Small d × AllSmall cs (run os h z t c d).disk

  abbrev pub AllSucceed : List Command → Disk → Type 0
  AllSucceed [] d = Unit
  AllSucceed (c ∷ cs) d =
      ((run os h z t c d).result ≡ ok tt) × AllSucceed cs (run os h z t c d).disk

  -- A sequence of `create` and `extract` commands refines the abstract disk, on which `create` makes an
  -- archive of a plain file, and `extract` a plain file of what an archive was made of: if the disk
  -- agrees with the abstract one at first, then each command succeeds, and they agree in the end. The
  -- file system must refuse nothing, no command may have its input as its output, the flags of each
  -- `create` must be accepted and name a dictionary that is a plain file or none, with which
  -- `NewBuilder` succeeds, and in front of each command all files must be shorter than the largest slice.
  pub after-Refines :
      (cs : List Command) (d : Disk) (a a' : Views)
      → ((p : Bytes) → Works os p)
      → Refines h z d a
      → AllMean h z a cs a'
      → AllSmall cs d
      → AllSucceed cs d × Refines h z (after cs d) a'
  unfolding after
  after-Refines [] d a a' works r finished small = (tt, r)
  after-Refines (c ∷ cs) d a a' works r (first _ {b} means later) (small, more) =
      let (good, agrees) = run-Means os h z t c d a b works r small means in
      let (all, last) = after-Refines cs (run os h z t c d).disk b a' works agrees later more in
      ((good, all), last)
