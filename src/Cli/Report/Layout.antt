-- ===== src/Cli/Report/Layout.antt =====
-- The text of a report, from its first line to its last.
use zchunk.Prelude.{
  ℕ, zero, suc, ◌*◌, ◌<◌, not, ◌/◌, ◌%◌, ◌≡◌, ◌∙◌, ap, refl, Bool, true, false, List, [], ◌∷◌, ◌++◌,
  append-nil, append_assoc, flatten, length, ◌==◌, if◌then◌else◌, arith,
}
use zchunk.Prelude.Bits.{bit_and-one, bit_and_two, bit_and_four}
use zchunk.Go.Reader.{Bytes}
use zchunk.Go.Text.{codes, format_decimal, format_hexadecimal, format_bytes, format_bool}
use zchunk.Lead.{Lead}
use zchunk.Preface.{
  OptionalElement, Preface, has_flag, has_data_streams, has_optional_elements, uncompressed_source,
}
use zchunk.Index
use zchunk.Index.{IndexEntry, Index}
use zchunk.Cli.{Headers}
use zchunk.Cli.Names.{compression_name, checksum_name, unknown_name}
use zchunk.Cli.Report.{
  element_lines, lead_lines, preface_lines, index_lines, signature_lines, dict_texts,
}

-- The word for a number without one of its own.
abbrev numbered : ℕ → Bytes
numbered n = codes "unknown(" ++ (format_decimal n ++ codes ")")

abbrev checksum_word : ℕ → Bytes
checksum_word zero = codes "SHA-1"
checksum_word (suc zero) = codes "SHA-256"
checksum_word (suc (suc zero)) = codes "SHA-512"
checksum_word (suc (suc (suc zero))) = codes "SHA-512/128"
checksum_word (suc (suc (suc (suc t)))) = numbered (suc (suc (suc (suc t))))

abbrev compression_word : ℕ → Bytes
compression_word zero = codes "none"
compression_word (suc (suc zero)) = codes "zstd"
compression_word c = numbered c

abbrev bit_word : ℕ → Bytes
bit_word zero = codes "false"
bit_word _ = codes "true"

abbrev kind_word : Bool → Bytes
kind_word true = codes "detached zchunk header"
kind_word false = codes "zchunk file"

-- A line: two spaces, the label, the value, and what follows the end of the line.
abbrev row : Bytes → Bytes → Bytes → Bytes
row label value rest = codes "  " ++ (label ++ (value ++ (10 ∷ rest)))

abbrev elements_row : List OptionalElement → Bytes → Bytes
elements_row [] rest = rest
elements_row (e ∷ es) rest = row (codes "optional elts: ") (format_decimal (length (e ∷ es))) rest

-- The first chunk is the dictionary.
abbrev dict_note : List IndexEntry → Bytes
dict_note [] = []
dict_note (d ∷ es) =
    codes " (dict: "
    ++ (format_decimal d.comp_length
        ++ (codes " -> " ++ (format_decimal d.full_length ++ codes " bytes)")))

-- The three lowest bits of the flags, in words.
abbrev flags_note : ℕ → Bytes
flags_note f =
    codes " (streams="
    ++ (bit_word (f % 2)
        ++ (codes " optional="
            ++ (bit_word (f / 2 % 2)
                ++ (codes " uncompressed=" ++ (bit_word (f / 4 % 2) ++ codes ")")))))

abbrev lead_text : Bytes → Lead → Bytes → Bytes
lead_text name l rest =
    name
    ++ (codes ": "
        ++ (kind_word l.detached
            ++ (10
                ∷ row (codes "checksum type: ") (checksum_word l.checksum_type) (
                    row (codes "header size:   ") (format_decimal l.header_size ++ codes " bytes")
                      (row (codes "header cksum:  ") (format_bytes l.header_checksum) rest)))))

abbrev preface_text : Preface → Bytes → Bytes
preface_text p rest = row (codes "compression:   ") (compression_word p.compression_type) (
    row (codes "flags:         ") (format_hexadecimal p.flags ++ flags_note p.flags) (
      row (codes "data cksum:    ") (format_bytes p.data_checksum)
        (elements_row p.optional_elements rest)))

abbrev index_text : Index → Bytes → Bytes
index_text idx rest = row (codes "chunk cksum:   ") (checksum_word idx.chunk_checksum_type) (
    row (codes "chunks:        ") (format_decimal (length idx.chunks) ++ dict_note idx.chunks) rest)

-- The report of the file `name` with these headers.
abbrev pub report_text : Bytes → Headers → Bytes
report_text name hs = lead_text name hs.lead (
    preface_text hs.preface
      (index_text hs.index (row (codes "signatures:    ") (format_decimal hs.signatures.count) [])))

checksum_name-word : (t : ℕ) → checksum_name t ≡ checksum_word t
unfolding checksum_name unknown_name
checksum_name-word zero = refl
checksum_name-word (suc zero) = refl
checksum_name-word (suc (suc zero)) = refl
checksum_name-word (suc (suc (suc zero))) = refl
checksum_name-word (suc (suc (suc (suc n)))) = ground arith

compression_name-word : (c : ℕ) → compression_name c ≡ compression_word c
unfolding compression_name unknown_name
compression_name-word zero = refl
compression_name-word (suc zero) = refl
compression_name-word (suc (suc zero)) = refl
compression_name-word (suc (suc (suc n))) = ground arith

kind_word-if :
    (d : Bool) → (if d then codes "detached zchunk header" else codes "zchunk file") ≡ kind_word d
kind_word-if true = refl
kind_word-if false = refl

tested_bit : (b x k : ℕ) → x ≡ b * suc k → b < 2 → format_bool (not (x == 0)) ≡ bit_word b
unfolding format_bool
tested_bit zero x k e low = let none_set : x ≡ 0 = omega (arith, e) in rw none_set refl
tested_bit (suc zero) x k e low = let set : (x == 0) ≡ false = ground (arith, e) in rw set refl
tested_bit (suc (suc b)) x k e low = absurd (omega (arith, low))

bit_word-flags :
    (p : Preface)
    → (format_bool (has_data_streams p) ≡ bit_word (p.flags % 2))
      × (format_bool (has_optional_elements p) ≡ bit_word (p.flags / 2 % 2))
      × (format_bool (uncompressed_source p) ≡ bit_word (p.flags / 4 % 2))
unfolding has_data_streams has_optional_elements uncompressed_source has_flag
bit_word-flags p = (
  tested_bit (p.flags % 2) _ 0 (omega (arith, bit_and-one p.flags)) (omega arith),
  tested_bit (p.flags / 2 % 2) _ 1 (omega (arith, bit_and_two p.flags)) (omega arith),
  tested_bit (p.flags / 4 % 2) _ 3 (omega (arith, bit_and_four p.flags)) (omega arith),
)

lead_lines-text :
    (name : Bytes) (l : Lead) (rest : Bytes)
    → flatten (lead_lines name l) ++ rest ≡ lead_text name l rest
unfolding lead_lines
lead_lines-text name l rest =
    rw (kind_word-if l.detached, checksum_name-word l.checksum_type) (simp append_assoc)

element_lines-row :
    (es : List OptionalElement) (rest : Bytes)
    → flatten (element_lines es) ++ rest ≡ elements_row es rest
unfolding element_lines
element_lines-row [] rest = refl
element_lines-row (e ∷ es) rest = simp append_assoc

preface_lines-text :
    (p : Preface) (rest : Bytes) → flatten (preface_lines p) ++ rest ≡ preface_text p rest
unfolding preface_lines
preface_lines-text p rest =
    let (streams, optional, uncompressed) = bit_word-flags p in
    rw (compression_name-word p.compression_type, streams, optional, uncompressed)
      (simp (append_assoc, ← element_lines-row p.optional_elements rest))

dict_texts-note :
    (es : List IndexEntry) (rest : Bytes)
    → flatten (dict_texts (Index.dict es) ++ (10 ∷ []) ∷ []) ++ rest ≡ dict_note es ++ (10 ∷ rest)
unfolding dict_texts Index.dict
dict_texts-note [] rest = refl
dict_texts-note (d ∷ es) rest = simp append_assoc

index_lines-text :
    (idx : Index) (rest : Bytes) → flatten (index_lines idx) ++ rest ≡ index_text idx rest
unfolding index_lines
index_lines-text idx rest =
    rw (checksum_name-word idx.chunk_checksum_type)
      (simp (append_assoc, dict_texts-note idx.chunks rest))

-- The lines that `report_lead` prints, in order, make up the text.
pub lines-text :
    (name : Bytes) (hs : Headers)
    → flatten (lead_lines name hs.lead)
        ++ (flatten (preface_lines hs.preface)
            ++ (flatten (index_lines hs.index) ++ flatten (signature_lines hs.signatures)))
      ≡ report_text name hs
unfolding signature_lines
lines-text name hs =
    lead_lines-text name hs.lead _
    ∙ ap (lead_text name hs.lead) (
        preface_lines-text hs.preface _
        ∙ ap (preface_text hs.preface)
            (index_lines-text hs.index _ ∙ ap (index_text hs.index) (append-nil _)))
