-- ===== src/Preface/Rewrite.antt =====
-- What `ReadPreface` can return, whatever its input, and what `WriteTo` makes of it.
use zchunk.Prelude.{
  ℕ, zero, suc, ◌+◌, ◌≤◌, ◌≡◌, ◌∙◌, sym, ap, refl, Bool, true, false, inl, inr, ◌⊎◌, List, [], ◌∷◌,
  ◌++◌, ◌==◌, ltb, All, length, length-append, arith,
}
use zchunk.Go.Error.{flag_disagrees_with_elements, unknown_flags, unknown_compression_type}
use zchunk.Go.Result.{guard_goes, guard_stops, ok, err, max_int}
use zchunk.Go.Reader.{Ending, Bytes, Reads}
use zchunk.Go.Yields.{
  Yields, Yields-pure, Yields-lift, Yields-reading, Yields-bind, Yields-guard, Yields-make,
  Yields-weaken, read_full-Yields, read_compressed_int-Yields,
}
use zchunk.Checksum.{ChecksumType, size}
use zchunk.Preface.{
  same, OptionalElement, Preface, has_flag, unknown_bits, valid, flag_optional_elements,
  read_element, read_elements, read_elements_if, read_preface, preface_bytes,
}
use zchunk.Preface.RoundTrip.{IsElement, IsPreface, read_preface-preface_bytes}

-- A preface whose numbers fit Go's types, whose digest has the size of the checksum type, whose flags and
-- compression type are known, and which has no elements without the flag that announces them.
pub record IsRead (t : ChecksumType) (p : Preface) : Type 0 where
  pub fits : IsPreface t p
  pub flags_known : (unknown_bits p.flags == 0) ≡ true
  pub type_valid : valid p.compression_type ≡ true
  pub no_elements : has_flag p.flags flag_optional_elements ≡ false → p.optional_elements ≡ []

read_element-Yields : (i : ℕ) → Yields (read_element i) IsElement
unfolding read_element
read_element-Yields i = Yields-bind _ (Yields-reading _ read_compressed_int-Yields) λ id id_fits.
    Yields-bind _ (Yields-reading _ read_compressed_int-Yields) λ n _.
      Yields-bind _ (Yields-make n) λ _ n_fits.
        Yields-bind _ (Yields-reading _ (read_full-Yields n))
          λ content long. Yields-pure _ (id_fits, omega (arith, long, n_fits))

-- `n` elements.
record Elements (n : ℕ) (els : List OptionalElement) : Type 0 where
  pub fit : All IsElement els
  pub count : length els ≡ n

All-concat :
    (els : List OptionalElement) (el : OptionalElement)
    → All IsElement els
    → IsElement el
    → All IsElement (els ++ el ∷ [])
All-concat [] el hs h = (h, tt)
All-concat (e ∷ els) el (h', hs) h = (h', All-concat els el hs h)

read_elements-Yields :
    (left i n : ℕ) (acc : List OptionalElement)
    → All IsElement acc
    → length acc + left ≡ n
    → Yields (read_elements left i acc) (Elements n)
unfolding read_elements
read_elements-Yields zero i n acc hs e =
    Yields-pure acc (record { fit = hs; count = omega (arith, e) })
read_elements-Yields (suc left) i n acc hs e = Yields-bind _ (read_element-Yields i) λ el h.
    read_elements-Yields left (i + 1) n (acc ++ el ∷ []) (All-concat acc el hs h)
      (omega (arith, length-append acc (el ∷ []), e))

-- The elements behind the flag.
record Optional (flagged : Bool) (els : List OptionalElement) : Type 0 where
  pub fit : All IsElement els
  pub few : length els ≤ max_int
  pub none_without : flagged ≡ false → els ≡ []

read_elements_if-Yields : (flagged : Bool) → Yields (read_elements_if flagged) (Optional flagged)
unfolding read_elements_if
read_elements_if-Yields false =
    Yields-pure [] (record { fit = tt; few = omega arith; none_without = λ _. refl })
read_elements_if-Yields true = Yields-bind _ (Yields-reading _ read_compressed_int-Yields) λ n _.
    Yields-bind _ (Yields-make n) λ _ n_fits.
      Yields-weaken (read_elements-Yields n 0 n [] tt (omega arith)) λ els h. record {
        fit = h.fit;
        few = omega (arith, h.count, n_fits);
        none_without = λ off. cc;
      }

pub read_preface-IsRead : (t : ChecksumType) → Yields (read_preface t) (IsRead t)
unfolding read_preface
read_preface-IsRead t =
    Yields-bind _ (Yields-lift {P = λ n. size t ≡ ok n} (size t) λ n known. known) λ n known.
      Yields-bind _ (Yields-reading _ (read_full-Yields n)) λ digest long.
        Yields-bind _ (Yields-reading _ read_compressed_int-Yields) λ flags _.
          Yields-bind _
            (Yields-guard (unknown_bits flags == 0) (unknown_flags (unknown_bits flags)))
            λ _ flags_known. Yields-bind _ (Yields-reading _ read_compressed_int-Yields) λ comp _.
              Yields-bind _ (Yields-guard (valid comp) (unknown_compression_type comp))
                λ _ type_valid.
                  Yields-bind _ (read_elements_if-Yields (has_flag flags flag_optional_elements))
                    λ els h. Yields-pure _ (record {
                      fits = record {
                        digest_size = known ∙ ap ok (sym long);
                        few_elements = h.few;
                        elements = h.fit;
                      };
                      flags_known = flags_known;
                      type_valid = type_valid;
                      no_elements = h.none_without;
                    })

flag_agrees :
    (flagged : Bool) (els : List OptionalElement)
    → (flagged ≡ false → els ≡ [])
    → (same flagged (ltb 0 (length els)) ≡ true) ⊎ ((flagged ≡ true) × (els ≡ []))
flag_agrees true [] h = inr (refl, refl)
flag_agrees true (e ∷ els) h = inl (ground arith)
flag_agrees false [] h = inl refl
flag_agrees false (e ∷ els) h = cc (h refl)

-- What a preface that was read is written as.
pub data Rewritten (t : ChecksumType) (p : Preface) : Type 0 where
  again : (bs : Bytes) → preface_bytes p ≡ ok bs → Reads (read_preface t) bs p → Rewritten t p
  refused :
      has_flag p.flags flag_optional_elements ≡ true
      → p.optional_elements ≡ []
      → preface_bytes p ≡ err (flag_disagrees_with_elements 0)
      → Rewritten t p

disagrees :
    (p : Preface)
    → has_flag p.flags flag_optional_elements ≡ true
    → p.optional_elements ≡ []
    → same (has_flag p.flags flag_optional_elements) (ltb 0 (length p.optional_elements)) ≡ false
disagrees p flagged empty = rw (flagged, empty) refl

rewritten : (t : ChecksumType) (p : Preface) → IsRead t p → Rewritten t p
unfolding preface_bytes
rewritten t p r =
    elim (flag_agrees (has_flag p.flags flag_optional_elements) p.optional_elements r.no_elements) [
      | inl agrees ↦
          let made =
            guard_goes _ _ _ r.flags_known
            ∙ guard_goes _ _ _ r.type_valid
            ∙ guard_goes _ _ _ agrees in
          again _ made (read_preface-preface_bytes t p _ r.fits made)
      | inr (flagged, empty) ↦ refused flagged empty (
          guard_goes _ _ _ r.flags_known
          ∙ guard_goes _ _ _ r.type_valid
          ∙ guard_stops _ _ _ (disagrees p flagged empty)
          ∙ ap (λ els. err (flag_disagrees_with_elements (length els))) empty)
    ]

-- A preface that `ReadPreface` has read from any input, `WriteTo` writes, and `ReadPreface` reads it
-- back from the bytes, whatever follows them; only a preface with the flag of optional elements and
-- none of these, which `ReadPreface` accepts, `WriteTo` refuses.
pub read_preface-Rewritten :
    (t : ChecksumType) (end : Ending) (s : Bytes) {p : Preface} {rest : Bytes}
    → read_preface t end s ≡ ok (p, rest)
    → Rewritten t p
read_preface-Rewritten t end s {p} e = rewritten t p ((read_preface-IsRead t).holds end s e)
