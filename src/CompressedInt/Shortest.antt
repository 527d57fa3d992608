-- ===== src/CompressedInt/Shortest.antt =====
-- `AppendCompressedInt` codes an integer in the fewest bytes that `ReadCompressedInt` reads it from.
use mathlib.Core.Path.{subst, subst₂}
use zchunk.Prelude.{
  ℕ, zero, suc, ◌+◌, ◌*◌, ◌^◌, ◌≤◌, ◌<◌, ◌≡◌, ◌∙◌, sym, ap, refl, inl, inr, [], ◌∷◌, length, arith,
}
use zchunk.Go.Result.{ok}
use zchunk.Go.Reader.{Bytes, Ending}
use zchunk.CompressedInt.{add_group, append_compressed_int, read_loop, read_compressed_int}
use zchunk.CompressedInt.Encode.{length-encoding_below}
use zchunk.CompressedInt.RoundTrip.{add_group_fits, group_below, pow_seven}
use zchunk.CompressedInt.Bounds.{group_fits, read_loop_round}

-- `k` more groups of seven bits hold the value, and the rest is that much shorter.
record Groups (i n : ℕ) (v m : ℕ) : Type 0 where
  pub count : ℕ
  pub shorter : n ≡ suc count + m
  pub below : v < 2 ^ (7 * (i + suc count))

read_loop-Groups :
    (left i v : ℕ) (end : Ending) (s : Bytes) {r : ℕ} {rest : Bytes}
    → i + left ≡ 10
    → v < 2 ^ (7 * i)
    → read_loop left i v end s ≡ ok (r, rest)
    → Groups i (length s) r (length rest)
read_loop-Groups zero i v end s e low h = unfold read_loop in cc
read_loop-Groups (suc left) i v end [] e low h = unfold read_loop in cc
read_loop-Groups (suc left) i v end (b ∷ s) {r} {rest} e low h =
    elim (read_loop_round left i v end b s) [
      | inl wide ↦ cc
      | inr (last, round) ↦
          let fits = group_fits i v b (omega arith) low last in
          let added = add_group_fits v i b low fits in
          let below : add_group v i b < 2 ^ (7 * (i + 1)) = rw added (group_below i v b low) in
          elim round [
            | inl more ↦
                let g =
                  read_loop-Groups left (i + 1) (add_group v i b) end s (omega arith) below
                    (sym more ∙ h) in
                record {
                  count = suc g.count;
                  shorter = omega (arith, g.shorter);
                  below = subst₂ (λ x y. x < 2 ^ (7 * y)) refl (omega arith) g.below;
                }
            | inr final ↦
                let same : (add_group v i b ≡ r) × (s ≡ rest) = ground (arith, final, h) in
                subst₂ (λ x y. Groups i (length (b ∷ s)) x (length y)) same.0 same.1
                  (record { count = 0; shorter = omega arith; below = below })
          ]
    ]

groups_pow : (k : ℕ) → 2 ^ (7 * k) ≡ 128 ^ k
groups_pow zero = refl
groups_pow (suc k) =
    let next : 2 ^ (7 * suc k) ≡ 2 ^ (7 * (k + 1)) = ap (λ n. 2 ^ (7 * n)) (omega arith) in
    let shorter = groups_pow k in omega (arith, next, pow_seven k, shorter)

-- `AppendCompressedInt` codes an integer in the fewest bytes: from whatever bytes `ReadCompressedInt`
-- returns the integer, it takes at least as many as `AppendCompressedInt` writes for it.
pub read_compressed_int-shortest :
    (end : Ending) (s : Bytes) {v : ℕ} {rest : Bytes}
    → read_compressed_int end s ≡ ok (v, rest)
    → length (append_compressed_int [] v) + length rest ≤ length s
unfolding read_compressed_int
read_compressed_int-shortest end s {v} {rest} h =
    let g = read_loop-Groups 10 0 0 end s {r = v} {rest = rest} refl (omega arith) h in
    let count = suc g.count in
    let groups : 2 ^ (7 * (0 + count)) ≡ 128 ^ count =
      ap (λ k. 2 ^ (7 * k)) (omega arith) ∙ groups_pow count in
    omega (arith, g.shorter, length-encoding_below g.count v (subst (λ t. v < t) groups g.below))
