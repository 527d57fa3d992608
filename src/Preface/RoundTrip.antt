-- ===== src/Preface/RoundTrip.antt =====
-- `read_preface` reads back what `write_preface` wrote.
use zchunk.Prelude.{
  ℕ, ◌+◌, ◌<◌, ◌≤◌, ◌≡◌, ◌^◌, ◌∙◌, sym, refl, Bool, true, false, ◌⊎◌, List, [], ◌∷◌, ◌++◌, ◌==◌,
  ltb, if◌then◌else◌, length, All, append-nil, append_assoc, ==_iff, ◌⊎◌, arith,
}
use zchunk.Go.Error.{Context}
use zchunk.Go.Result
use zchunk.Go.Result.{Result, ok, err, guard, make, max_int}
use zchunk.Go.Reader.{
  Bytes, Reads, Reads-bind, Reads-skip, Reads-lift, Reads-guard, Reads-make, Reads-reading,
  Reads-last, Reads-pure, read_full-Reads,
}
use zchunk.CompressedInt.{append_compressed_int}
use zchunk.CompressedInt.Encode.{append_compressed_int-append}
use zchunk.CompressedInt.RoundTrip.{read_compressed_int-append_compressed_int}
use zchunk.Checksum.{ChecksumType, size}
use zchunk.Lead.RoundTrip.{append_two}
use zchunk.Preface.Flags.{flags_lem}
use zchunk.Preface.{
  same, CompressionType, valid, OptionalElement, Preface, has_flag, unknown_bits,
  flag_optional_elements, read_element, read_elements, read_elements_if, read_preface,
  append_elements, preface_bytes,
}

-- An element that Go can hold: a uint64, and a slice.
abbrev pub IsElement : OptionalElement → Type 0
IsElement el = (el.id < 2 ^ 64) × (length el.content ≤ max_int)

abbrev element_layout : OptionalElement → Bytes
element_layout el =
    append_compressed_int [] el.id ++ (append_compressed_int [] (length el.content) ++ el.content)

abbrev elements_layout : List OptionalElement → Bytes
elements_layout [] = []
elements_layout (el ∷ els) = element_layout el ++ elements_layout els

element_layout-Reads :
    (i : ℕ) (el : OptionalElement) → IsElement el → Reads (read_element i) (element_layout el) el
unfolding read_element
element_layout-Reads i el (hi, hc) =
    Reads-bind _
      (Reads-reading (Context.element_id i) (read_compressed_int-append_compressed_int el.id hi))
      (Reads-bind _
        (Reads-reading (Context.element_size i)
          (read_compressed_int-append_compressed_int (length el.content) (omega arith)))
        (Reads-skip _ (Reads-make (length el.content) hc) (
          Reads-last _ (Reads-reading (Context.element_data i) (read_full-Reads el.content refl)))))

elements_layout-Reads :
    (els : List OptionalElement) (i : ℕ) (acc : List OptionalElement)
    → All IsElement els
    → Reads (read_elements (length els) i acc) (elements_layout els) (acc ++ els)
unfolding read_elements
elements_layout-Reads [] i acc h = rw append-nil (Reads-pure acc)
elements_layout-Reads (el ∷ els) i acc (h, hs) =
    Reads-bind _ (element_layout-Reads i el h)
      (rw append_assoc at (elements_layout-Reads els (i + 1) (acc ++ el ∷ []) hs))

append_elements-layout :
    (buf : Bytes) (els : List OptionalElement)
    → append_elements buf els ≡ buf ++ elements_layout els
unfolding append_elements
append_elements-layout buf [] = sym (append-nil buf)
append_elements-layout buf (el ∷ els) =
    append_elements-layout
      (append_compressed_int (append_compressed_int buf el.id) (length el.content) ++ el.content)
      els
    ∙ rw (append_two buf el.id (length el.content) el.content)
        (append_assoc buf (element_layout el) (elements_layout els))

-- The optional part: absent, or the count and the elements.
abbrev tail_layout : List OptionalElement → Bytes
tail_layout [] = []
tail_layout (el ∷ els) = append_compressed_int [] (length (el ∷ els)) ++ elements_layout (el ∷ els)

tail_layout-Reads :
    (flagged : Bool) (els : List OptionalElement)
    → same flagged (ltb 0 (length els)) ≡ true
    → length els ≤ max_int
    → All IsElement els
    → Reads (read_elements_if flagged) (tail_layout els) els
unfolding read_elements_if
tail_layout-Reads false [] e few h = Reads-pure []
tail_layout-Reads false (el ∷ els) e few h = absurd (ground arith)
tail_layout-Reads true [] e few h = absurd (ground arith)
tail_layout-Reads true (el ∷ els) e few h =
    Reads-bind _
      (Reads-reading Context.element_count
        (read_compressed_int-append_compressed_int (length (el ∷ els)) (omega arith)))
      (Reads-skip _ (Reads-make (length (el ∷ els)) few) (elements_layout-Reads (el ∷ els) 0 [] h))

append_elements-tail :
    (buf : Bytes) (els : List OptionalElement)
    → (if ltb 0 (length els)
        then append_elements (append_compressed_int buf (length els)) els
        else buf)
      ≡ buf ++ tail_layout els
append_elements-tail buf [] = sym (append-nil buf)
append_elements-tail buf (el ∷ els) =
    let some_left : ltb 0 (length (el ∷ els)) ≡ true = ground arith in
    rw some_left (
      append_elements-layout (append_compressed_int buf (length (el ∷ els))) (el ∷ els)
      ∙ rw (append_compressed_int-append buf (length (el ∷ els))) (
          append_assoc buf (append_compressed_int [] (length (el ∷ els)))
            (elements_layout (el ∷ els))))

abbrev pub preface_layout : Preface → Bytes
preface_layout p =
    p.data_checksum
    ++ (append_compressed_int [] p.flags
        ++ (append_compressed_int [] p.compression_type ++ tail_layout p.optional_elements))

-- What Go's types and the checksum type ask of a preface.
pub record IsPreface (ck_type : ChecksumType) (p : Preface) : Type 0 where
  pub digest_size : size ck_type ≡ ok (length p.data_checksum)
  pub few_elements : length p.optional_elements ≤ max_int
  pub elements : All IsElement p.optional_elements

-- The checks of `WriteTo`.
pub record IsWritable (p : Preface) : Type 0 where
  pub flags_known : unknown_bits p.flags ≡ 0
  pub type_valid : valid p.compression_type ≡ true
  pub flag_agrees :
      same (has_flag p.flags flag_optional_elements) (ltb 0 (length p.optional_elements)) ≡ true

valid_cases : (c : CompressionType) → valid c ≡ true → (c ≡ 0) ⊎ (c ≡ 2)
unfolding valid
valid_cases c h = ground arith

preface_layout-Reads :
    (ck_type : ChecksumType) (p : Preface)
    → IsPreface ck_type p
    → IsWritable p
    → Reads (read_preface ck_type) (preface_layout p) p
unfolding read_preface
preface_layout-Reads ck_type p f w = Reads-skip _ (Reads-lift _ f.digest_size) (
    Reads-bind _ (Reads-reading Context.data_checksum (read_full-Reads p.data_checksum refl)) (
      Reads-bind _
        (Reads-reading Context.flags (
          read_compressed_int-append_compressed_int p.flags
            (omega (arith, (flags_lem p.flags).0.0 w.flags_known))))
        (Reads-skip _ (Reads-guard _ _ ((==_iff (unknown_bits p.flags) 0).1 w.flags_known)) (
          Reads-bind _
            (Reads-reading Context.compression_type (
              read_compressed_int-append_compressed_int p.compression_type
                (omega (arith, valid_cases p.compression_type w.type_valid))))
            (Reads-skip _ (Reads-guard _ _ w.type_valid) (
              Reads-last _ (
                tail_layout-Reads (has_flag p.flags flag_optional_elements) p.optional_elements
                  w.flag_agrees f.few_elements f.elements)))))))

pub preface_bytes-layout :
    (p : Preface) {bs : Bytes} → preface_bytes p ≡ ok bs → (bs ≡ preface_layout p) × IsWritable p
unfolding preface_bytes
preface_bytes-layout p e =
    let (known, e₁) = Result.guard-eq-ok (unknown_bits p.flags == 0) _ _ e in
    let (type_ok, e₂) = Result.guard-eq-ok (valid p.compression_type) _ _ e₁ in
    let (agrees, e₃) =
      Result.guard-eq-ok
        (same (has_flag p.flags flag_optional_elements) (ltb 0 (length p.optional_elements))) _ _
        e₂ in
    (
      sym (Result.ok-injective e₃)
          ∙ append_elements-tail _ p.optional_elements
          ∙ append_two p.data_checksum p.flags p.compression_type (tail_layout p.optional_elements),
      record { flags_known = (==_iff _ _).0 known; type_valid = type_ok; flag_agrees = agrees },
    )

-- `ReadPreface` reads back every preface that `WriteTo` accepts, and takes exactly its bytes, if
-- its data checksum has the length of the lead's checksum type and its numbers fit Go's types.
pub read_preface-preface_bytes :
    (ck_type : ChecksumType) (p : Preface) (bs : Bytes)
    → IsPreface ck_type p
    → preface_bytes p ≡ ok bs
    → Reads (read_preface ck_type) bs p
read_preface-preface_bytes ck_type p bs f e =
    let (layout, w) = preface_bytes-layout p e in rw layout (preface_layout-Reads ck_type p f w)
