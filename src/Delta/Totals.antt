-- ===== src/Delta/Totals.antt =====
-- How many bytes a plan fetches and reuses.
use zchunk.Prelude.{
  ℕ, ◌+◌, ◌%◌, ◌≡◌, refl, ap, sym, ◌∙◌, inl, inr, Bool-cases, Option, List, [], ◌∷◌, arith,
}
use zchunk.Go.Result.{ok, u64_mod, ok-injective}
use zchunk.Index.{IndexEntry, Index}
use zchunk.Delta.{
  ChunkSource, DeltaPlan, fetch_from, reuse_from, fetch_bytes, reuse_bytes, plan_delta,
}
use zchunk.Delta.Plan.{Follows, done, next, plan_delta-Follows}

-- The compressed length of a body, as a mathematical number.
unfoldable pub body_length : List IndexEntry → ℕ
body_length [] = 0
body_length (e ∷ es) = e.comp_length + body_length es

unfoldable sizes : List ChunkSource → ℕ
sizes [] = 0
sizes (s ∷ ss) = s.size + sizes ss

fetch_from-reuse_from :
    (f r : ℕ) (ss : List ChunkSource)
    → (fetch_from f ss + reuse_from r ss) % u64_mod ≡ (f + r + sizes ss) % u64_mod
unfolding fetch_from reuse_from sizes
fetch_from-reuse_from f r [] = omega arith
fetch_from-reuse_from f r (s ∷ ss) = elim (Bool-cases s.is_local) [
  | inl here ↦ rw here (omega (arith, fetch_from-reuse_from f ((r + s.size) % u64_mod) ss))
  | inr there ↦ rw there (omega (arith, fetch_from-reuse_from ((f + s.size) % u64_mod) r ss))
]

Follows-sizes :
    {es ts : List IndexEntry} {ss : List ChunkSource} {i off : ℕ}
    → Follows es ts ss i off
    → sizes ss ≡ body_length ts
unfolding sizes body_length
Follows-sizes done = refl
Follows-sizes (next e s (index, (size, rest)) later) = omega (arith, size, Follows-sizes later)

-- The bytes that a plan fetches and those it reuses add up to the compressed length of the target's body, modulo 2^64.
pub fetch_bytes-reuse_bytes :
    (local : Option Index) (target : Index) {p : DeltaPlan}
    → plan_delta local target ≡ ok p
    → (fetch_bytes p + reuse_bytes p) % u64_mod ≡ body_length target.chunks % u64_mod
unfolding fetch_bytes reuse_bytes
fetch_bytes-reuse_bytes local target {p} h = elim (plan_delta-Follows local target) [
  | inl (_, (q, (planned, follows))) ↦
      let same : sizes q.sources ≡ sizes p.sources =
        ap (λ (x : DeltaPlan). sizes x.sources) (ok-injective (sym planned ∙ h)) in
      omega (arith, fetch_from-reuse_from 0 0 p.sources, same, Follows-sizes follows)
  | inr (_, (_, refused)) ↦ cc
]
