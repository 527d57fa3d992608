-- ===== src/Cli/Report.antt =====
-- cmd/zchunk/main.go: `reportLead`, which prints what the command `info` finds.
pub mod Layout
pub mod Complete
use zchunk.Prelude.{
  ℕ, ◌≡◌, ◌∙◌, sym, ap, refl, Bool, true, false, Option, none, some, List, [], ◌∷◌, ◌++◌,
  append-nil, append_assoc, flatten, length, if◌then◌else◌,
}
use zchunk.Go.Error.{Error}
use zchunk.Go.Result
use zchunk.Go.Result.{Result, ok, err, panic, stuck}
use zchunk.Go.Reader.{Bytes, Ending, Reading}
use zchunk.Go.Writer.{Writer, write, buffer}
use zchunk.Go.Text.{codes, format_decimal, format_hexadecimal, format_bytes, format_bool}
use zchunk.Lead.{Lead, read_lead}
use zchunk.Preface.{
  OptionalElement, Preface, has_data_streams, has_optional_elements, uncompressed_source,
  read_preface,
}
use zchunk.Index
use zchunk.Index.{IndexEntry, Index, read_index}
use zchunk.Signatures.{Signatures, read_signatures}
use zchunk.Cli.{Headers, read_headers}
use zchunk.Cli.Names.{compression_name, checksum_name}

-- Calls of `fmt.Fprintf` in order; each is one call of the writer, whose error is dropped.
unfoldable pub print_all : Writer → List Bytes → Bytes → Bytes
unfolding write
print_all w [] out = out
print_all w (p ∷ ps) out = print_all w ps (write w out p).out

-- A line that begins with `  label: `, and the end of a line.
abbrev field : Bytes → Bytes → Bytes
field label value = label ++ value ++ 10 ∷ []

unfoldable pub lead_lines : Bytes → Lead → List Bytes
unfolding format_decimal format_bytes checksum_name
lead_lines name l =
    field (name ++ codes ": ")
      (if l.detached then codes "detached zchunk header" else codes "zchunk file")
    ∷ field (codes "  checksum type: ") (checksum_name l.checksum_type)
    ∷ field (codes "  header size:   ") (format_decimal l.header_size ++ codes " bytes")
    ∷ field (codes "  header cksum:  ") (format_bytes l.header_checksum)
    ∷ []

-- `if n := len(pre.OptionalElements); n > 0`
unfoldable pub element_lines : List OptionalElement → List Bytes
unfolding format_decimal
element_lines [] = []
element_lines (e ∷ es) = field (codes "  optional elts: ") (format_decimal (length (e ∷ es))) ∷ []

unfoldable pub preface_lines : Preface → List Bytes
unfolding compression_name format_hexadecimal format_bool has_data_streams has_optional_elements
    uncompressed_source format_bytes element_lines
preface_lines p =
    field (codes "  compression:   ") (compression_name p.compression_type)
    ∷ field (codes "  flags:         ") (
        format_hexadecimal p.flags
        ++ codes " (streams="
        ++ format_bool (has_data_streams p)
        ++ codes " optional="
        ++ format_bool (has_optional_elements p)
        ++ codes " uncompressed="
        ++ format_bool (uncompressed_source p)
        ++ codes ")")
    ∷ field (codes "  data cksum:    ") (format_bytes p.data_checksum)
    ∷ element_lines p.optional_elements

-- `if d, ok := idx.Dict(); ok`
unfoldable pub dict_texts : Option IndexEntry → List Bytes
unfolding format_decimal
dict_texts none = []
dict_texts (some d) =
    (codes " (dict: "
      ++ format_decimal d.comp_length
      ++ codes " -> "
      ++ format_decimal d.full_length
      ++ codes " bytes)")
    ∷ []

unfoldable pub index_lines : Index → List Bytes
unfolding checksum_name format_decimal dict_texts Index.dict
index_lines idx =
    field (codes "  chunk cksum:   ") (checksum_name idx.chunk_checksum_type)
    ∷ (codes "  chunks:        " ++ format_decimal (length idx.chunks))
    ∷ (dict_texts (Index.dict idx.chunks) ++ (10 ∷ []) ∷ [])

unfoldable pub signature_lines : Signatures → List Bytes
unfolding format_decimal
signature_lines s = field (codes "  signatures:    ") (format_decimal s.count) ∷ []

-- What a command has printed, and its error.
pub record Printed : Type 0 where
  pub out : Bytes
  pub result : Result (Unit {0})

abbrev pub or_stop {ℓ} : {A : Type ℓ} → Bytes → Result A → (A → Printed) → Printed
or_stop out (ok a) k = k a
or_stop out (err e) k = record { out = out; result = err e }
or_stop out panic k = record { out = out; result = panic }
or_stop out stuck k = record { out = out; result = stuck }

unfoldable pub report_lead : Writer → Bytes → Ending → Bytes → Bytes → Printed
unfolding print_all lead_lines preface_lines index_lines signature_lines
report_lead w name end s out = or_stop out (read_lead end s) λ l.
    let out₁ = print_all w (lead_lines name l.0) out in
    or_stop out₁ (read_preface l.0.checksum_type end l.1) λ p.
      let out₂ = print_all w (preface_lines p.0) out₁ in
      or_stop out₂ (read_index (uncompressed_source p.0) end p.1) λ i.
        let out₃ = print_all w (index_lines i.0) out₂ in
        or_stop out₃ (read_signatures end i.1)
          λ g. record { out = print_all w (signature_lines g.0) out₃; result = ok tt }
