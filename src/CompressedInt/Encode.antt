-- ===== src/CompressedInt/Encode.antt =====
-- What `append_compressed_int` writes, one byte at a time.
use mathlib.Core.Logic.{dif_pos}
use native.Mathlib.Bridge.{le_prop}
use mathlib.Core.WellFounded
use mathlib.Core.WellFounded.{Acc}
use native.Mathlib.Decide.{dec_le}
use zchunk.Prelude.{
  ℕ, zero, suc, ◌+◌, ◌/◌, ◌%◌, ◌^◌, ◌≤◌, ◌<◌, ◌≡◌, sym, ◌∙◌, [], ◌∷◌, ◌++◌, ap, append_assoc,
  bit_and, bit_or, length, All, lt_wf, arith,
}
use zchunk.Prelude.Bits.{bit_and_low127, bit_or_top}
use zchunk.Go.Reader.{Bytes}
use zchunk.CompressedInt.{shift_shrinks, append_loop, append_compressed_int}

low_group : (v : ℕ) → bit_and (v % 256) 0x7f ≡ v % 128
low_group v = omega (arith, bit_and_low127 (v % 256))

last_group : (v : ℕ) → v < 128 → bit_or (v % 256) 0x80 ≡ v + 128
last_group v h = omega (arith, bit_or_top (v % 256) (omega arith))

append_loop_last :
    (dst : Bytes) (v : ℕ) (w : Acc ◌<◌ v) → v < 128 → append_loop dst v w ≡ dst ++ (v + 128) ∷ []
unfolding append_loop
append_loop_last dst v (Acc.intro _ smaller) h = grind (arith, last_group v h)

append_loop_more :
    (dst : Bytes) (v : ℕ) (w : Acc ◌<◌ v)
    → 128 ≤ v
    → (w' : Acc ◌<◌ (v / 128)) × (append_loop dst v w
        ≡ append_loop (dst ++ (v % 128) ∷ []) (v / 128) w')
unfolding append_loop
append_loop_more dst v (Acc.intro _ smaller) h =
    (smaller (v / 128) (shift_shrinks v h), dif_pos (dec_le 0x80 v) le_prop h _ _ ∙ rw low_group)

-- The loop only appends, and does the same for every proof that it ends.
append_loop-append :
    (v : ℕ) (dst : Bytes) (w w' : Acc ◌<◌ v) → append_loop dst v w ≡ dst ++ append_loop [] v w'
append_loop-append v =
    WellFounded.induction lt_wf
      {C = λ v. (dst : Bytes) (w w' : Acc ◌<◌ v) → append_loop dst v w ≡ dst ++ append_loop [] v w'}
      v
      λ n ih dst w w'. elim (dec_le 0x80 n) [
        | yes more ↦
            let (u, e) = append_loop_more dst n w more in
            let (u', e') = append_loop_more [] n w' more in
            let group : Bytes = (n % 128) ∷ [] in
            let shorter : n / 128 < n = omega arith in
            rw (e, e', ih (n / 128) shorter (dst ++ group) u u', ih (n / 128) shorter group u' u')
              (append_assoc dst group (append_loop [] (n / 128) u'))
        | no done ↦
            append_loop_last dst n w (omega arith)
            ∙ sym (ap (λ t. dst ++ t) (append_loop_last [] n w' (omega arith)))
      ]

pub append_compressed_int-append :
    (dst : Bytes) (v : ℕ) → append_compressed_int dst v ≡ dst ++ append_compressed_int [] v
unfolding append_compressed_int
append_compressed_int-append dst v = append_loop-append v dst (lt_wf.apply v) (lt_wf.apply v)

-- The last byte has its top bit set.
pub encoding_last : (v : ℕ) → v < 128 → append_compressed_int [] v ≡ (v + 128) ∷ []
unfolding append_compressed_int
encoding_last v h = append_loop_last [] v (lt_wf.apply v) h

-- Every other byte holds seven bits.
pub encoding_more :
    (v : ℕ) → 128 ≤ v → append_compressed_int [] v ≡ (v % 128) ∷ append_compressed_int [] (v / 128)
unfolding append_compressed_int
encoding_more v h =
    let (w, e) = append_loop_more [] v (lt_wf.apply v) h in
    e ∙ append_loop-append (v / 128) ((v % 128) ∷ []) w (lt_wf.apply (v / 128))

encoding-IsByte_below :
    (k v : ℕ) → v < 128 ^ suc k → All (λ b. b < 256) (append_compressed_int [] v)
encoding-IsByte_below zero v h = rw (encoding_last v (omega arith)) (omega arith)
encoding-IsByte_below (suc k) v h = elim (dec_le 0x80 v) [
  | yes more ↦
      rw (encoding_more v more) (omega arith, encoding-IsByte_below k (v / 128) (omega arith))
  | no done ↦ rw (encoding_last v (omega arith)) (omega arith)
]

pub length-encoding_below :
    (k v : ℕ)
    → v < 128 ^ suc k
    → (1 ≤ length (append_compressed_int [] v)) × (length (append_compressed_int [] v) ≤ suc k)
length-encoding_below zero v h = rw (encoding_last v (omega arith)) (omega arith)
length-encoding_below (suc k) v h = elim (dec_le 0x80 v) [
  | yes more ↦
      let ih = length-encoding_below k (v / 128) (omega arith) in
      rw (encoding_more v more) (omega (arith, ih))
  | no done ↦ rw (encoding_last v (omega arith)) (omega arith)
]

-- A uint64 is appended as 1 to 10 bytes, each below 256, behind an unchanged `dst`.
pub append_compressed_int_shape :
    (dst : Bytes) (v : ℕ)
    → v < 2 ^ 64
    → (append_compressed_int dst v ≡ dst ++ append_compressed_int [] v)
      × All (λ b. b < 256) (append_compressed_int [] v)
      × (1 ≤ length (append_compressed_int [] v))
      × (length (append_compressed_int [] v) ≤ 10)
append_compressed_int_shape dst v h =
    let (lo, hi) = length-encoding_below 9 v (omega arith) in
    (append_compressed_int-append dst v, encoding-IsByte_below 9 v (omega arith), lo, hi)
