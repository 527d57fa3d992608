-- ===== src/Checksum/Digest.antt =====
-- The registry and the hashing agree: a known type has a digest of exactly its size.
use zchunk.Prelude.{ℕ, ◌≡◌, ◌<◌, ◌≤◌, refl, ◌⊎◌, inl, inr, length, take, length-take, arith}
use zchunk.Go.Error.{Error, unknown_checksum_type}
use zchunk.Go.Result.{ok, err}
use zchunk.Go.Reader.{Bytes}
use zchunk.Checksum.{ChecksumType, Hashes, size, new_hash, sum}

-- The five cases of the registry.
type_cases : (t : ChecksumType) → (t ≡ 0) ⊎ ((t ≡ 1) ⊎ ((t ≡ 2) ⊎ ((t ≡ 3) ⊎ (4 ≤ t))))
type_cases t = omega arith

-- `Size` knows exactly the types 0 to 3, with lengths from 16 to 64, and names any other type in
-- its error.
pub size_total :
    (t : ChecksumType)
    → ((n : ℕ) × (size t ≡ ok n) × (t < 4) × (16 ≤ n) × (n ≤ 64))
      ⊎ ((size t ≡ err (unknown_checksum_type t)) × (4 ≤ t))
unfolding size
size_total t = elim (type_cases t) [
  | inl e ↦ rw e (inl (20, refl, omega arith, omega arith, omega arith))
  | inr (inl e) ↦ rw e (inl (32, refl, omega arith, omega arith, omega arith))
  | inr (inr (inl e)) ↦ rw e (inl (64, refl, omega arith, omega arith, omega arith))
  | inr (inr (inr (inl e))) ↦ rw e (inl (16, refl, omega arith, omega arith, omega arith))
  | inr (inr (inr (inr h))) ↦ inr (ground arith, h)
]

module _ (h : Hashes) where
  -- `newHash` cannot fail where `Size` has not, and the whole digest is long enough to be cut.
  pub new_hash-size :
      (t : ChecksumType) {n : ℕ}
      → size t ≡ ok n
      → (f : Bytes → Bytes) × (new_hash h t ≡ ok f) × ((d : Bytes) → n ≤ length (f d))
  unfolding size new_hash
  new_hash-size t {n} e = elim (type_cases t) [
    | inl z ↦ rw z (h.sum1, refl, λ d. ground (arith, h.length-sum1 d))
    | inr (inl z) ↦ rw z (h.sum256, refl, λ d. ground (arith, h.length-sum256 d))
    | inr (inr (inl z)) ↦ rw z (h.sum512, refl, λ d. ground (arith, h.length-sum512 d))
    | inr (inr (inr (inl z))) ↦ rw z (h.sum512, refl, λ d. ground (arith, h.length-sum512 d))
    | inr (inr (inr (inr big))) ↦ absurd (ground arith)
  ]

  -- `Sum` succeeds where `Size` does, with a digest of that length.
  pub sum-size :
      (t : ChecksumType) {n : ℕ} (d : Bytes)
      → size t ≡ ok n
      → (digest : Bytes) × (sum h t d ≡ ok digest) × (length digest ≡ n)
  sum-size t {n} d e =
      let (f, made, long) = new_hash-size t e in
      (take n (f d), sum_made f made, rw length-take (omega (arith, long d)))
    where
      sum_made : (f : Bytes → Bytes) → new_hash h t ≡ ok f → sum h t d ≡ ok (take n (f d))
      sum_made f made = unfold sum in rw (e, made)

  pub sum_unknown : (t : ChecksumType) (d : Bytes) {e : Error} → size t ≡ err e → sum h t d ≡ err e
  unfolding sum
  sum_unknown t d e = ground arith
