-- ===== src/Cli/Files/Steps.antt =====
-- The calls of package os where nothing is refused.
use zchunk.Go.Int.{ℤ, positive}
use zchunk.Prelude.{ℕ, ◌≡◌, ap, refl, true, false, none, some, [], if◌then◌else◌}
use zchunk.Go.Error.{Error, Context, file_error, wrap}
use zchunk.Go.Result.{Result, ok, err, guard}
use zchunk.Go.Reader.{Bytes}
use zchunk.Lead.{equal}
use zchunk.Lead.RoundTrip.{equal_iff}
use zchunk.Cli.Files.{
  Disk, Os, put, content_of, open_file, may_create, create_file, close_file, above_zero,
}

pub put_same : (d : Disk) (p content : Bytes) → put d p content p ≡ some content
unfolding put
put_same d p content = ap (λ b. if b then some content else d p) ((equal_iff p p).1 refl)

pub put_other : (d : Disk) (p q content : Bytes) → equal p q ≡ false → put d p content q ≡ d q
unfolding put
put_other d p q content h = ap (λ b. if b then some content else d q) h

pub content_of-some : (d : Disk) (p : Bytes) {s : Bytes} → d p ≡ some s → content_of d p ≡ s
unfolding content_of
content_of-some d p h = ap (λ o. elim o [ none ↦ [] | some content ↦ content ]) h

pub open_file_found :
    (os : Os) (c : Context) (d : Disk) (p : Bytes) {s : Bytes}
    → d p ≡ some s
    → os.openable p ≡ true
    → open_file os c d p ≡ ok tt
unfolding open_file
open_file_found os c d p found opens =
    rw opens
      (ap (λ o. guard (elim o [ none ↦ false | some content ↦ true ]) (wrap c file_error)) found)

pub create_file_made :
    (os : Os) (d : Disk) (p : Bytes) → os.creatable p ≡ true → create_file os d p ≡ ok (put d p [])
unfolding create_file may_create
create_file_made os d p makes = rw makes refl

pub close_file_closes : (os : Os) (p : Bytes) → os.closes p ≡ true → close_file os p ≡ ok tt
unfolding close_file
close_file_closes os p closes = rw closes refl

pub above_zero-some : (x : ℤ) (e : Error) {n : ℕ} → positive x ≡ some n → above_zero x e ≡ ok n
unfolding above_zero
above_zero-some x e h = ap (λ o. elim o as (λ _. Result ℕ) [ none ↦ err e | some n ↦ ok n ]) h
