-- ===== src/Preface.antt =====
-- internal/zchunk/preface.go: the flags, `Preface`, `ReadPreface` and `WriteTo`.
pub mod Flags
pub mod RoundTrip
pub mod Rewrite
use zchunk.Prelude.{
  ℕ, zero, suc, ◌+◌, ◌-◌, ◌^◌, Bool, true, false, not, ◌&&◌, ◌||◌, List, [], ◌∷◌, ◌++◌, bit_and,
  ◌==◌, ltb, leb, if◌then◌else◌, length,
}
use zchunk.Go.Error.{
  Error, Context, unknown_flags, unknown_compression_type, flag_disagrees_with_elements,
}
use zchunk.Go.Result
use zchunk.Go.Result.{Result, ok, err, guard, make}
use zchunk.Go.Reader.{Bytes, Reading, pure, lift, reading, ◌>>=◌, ◌>>◌, read_full}
use zchunk.Go.Writer.{Writer, Written, write_built}
use zchunk.CompressedInt.{append_compressed_int, read_compressed_int}
use zchunk.Checksum.{ChecksumType, size}

abbrev pub flag_data_streams : ℕ
flag_data_streams = 1

abbrev pub flag_optional_elements : ℕ
flag_optional_elements = 2

abbrev pub flag_uncompressed_source : ℕ
flag_uncompressed_source = 4

abbrev pub known_flags : ℕ
known_flags = 7

abbrev pub CompressionType : Type 0
CompressionType = ℕ

abbrev pub compression_none : CompressionType
compression_none = 0

abbrev pub compression_zstd : CompressionType
compression_zstd = 2

unfoldable pub valid : CompressionType → Bool
valid c = c == compression_none || c == compression_zstd

pub record OptionalElement : Type 0 where
  pub id : ℕ
  pub content : Bytes

-- A nil and an empty list of optional elements are one value here: the code reads only its length.
pub record Preface : Type 0 where
  pub data_checksum : Bytes
  pub flags : ℕ
  pub compression_type : CompressionType
  pub optional_elements : List OptionalElement

-- `flags & flag != 0`
unfoldable pub has_flag : ℕ → ℕ → Bool
has_flag flags flag = not (bit_and flags flag == 0)

-- `flags &^ knownFlags`: the bits of a mask are taken out of a number by subtraction.
unfoldable pub unknown_bits : ℕ → ℕ
unknown_bits flags = flags - bit_and flags known_flags

unfoldable pub has_data_streams : Preface → Bool
unfolding has_flag
has_data_streams p = has_flag p.flags flag_data_streams

unfoldable pub has_optional_elements : Preface → Bool
unfolding has_flag
has_optional_elements p = has_flag p.flags flag_optional_elements

unfoldable pub uncompressed_source : Preface → Bool
unfolding has_flag
uncompressed_source p = has_flag p.flags flag_uncompressed_source

-- One round of the loop over the optional elements.
unfoldable pub read_element : ℕ → Reading OptionalElement
read_element i = do
  id ← reading (Context.element_id i) read_compressed_int
  content_size ← reading (Context.element_size i) read_compressed_int
  lift (make content_size)
  content ← reading (Context.element_data i) (read_full content_size)
  pure (record { id = id; content = content })

-- The rounds that are left, the round number and the elements so far.
unfoldable pub read_elements : ℕ → ℕ → List OptionalElement → Reading (List OptionalElement)
read_elements zero i acc = pure acc
read_elements (suc left) i acc = do el ← read_element i; read_elements left (i + 1) (acc ++ el ∷ [])

unfoldable pub read_elements_if : Bool → Reading (List OptionalElement)
read_elements_if false = pure []
read_elements_if true = do
  count ← reading Context.element_count read_compressed_int
  lift (make count)
  read_elements count 0 []

unfoldable pub read_preface : ChecksumType → Reading Preface
read_preface ck_type = do
  digest_size ← lift (size ck_type)
  digest ← reading Context.data_checksum (read_full digest_size)
  flags ← reading Context.flags read_compressed_int
  lift (guard (unknown_bits flags == 0) (unknown_flags (unknown_bits flags)))
  comp ← reading Context.compression_type read_compressed_int
  lift (guard (valid comp) (unknown_compression_type comp))
  elements ← read_elements_if (has_flag flags flag_optional_elements)
  pure (record {
    data_checksum = digest;
    flags = flags;
    compression_type = comp;
    optional_elements = elements;
  })

-- The loop of `WriteTo` over the optional elements.
unfoldable pub append_elements : Bytes → List OptionalElement → Bytes
append_elements buf [] = buf
append_elements buf (el ∷ els) =
    append_elements
      (append_compressed_int (append_compressed_int buf el.id) (length el.content) ++ el.content)
      els

-- `!=` of two Booleans, negated
abbrev pub same : Bool → Bool → Bool
same true b = b
same false b = not b

-- The bytes that `Preface.WriteTo` hands to the writer.
unfoldable pub preface_bytes : Preface → Result Bytes
unfolding append_elements
preface_bytes p =
    let count = length p.optional_elements in
    let buf =
      append_compressed_int (append_compressed_int p.data_checksum p.flags) p.compression_type in
    Result.◌>>◌ (guard (unknown_bits p.flags == 0) (unknown_flags (unknown_bits p.flags))) (
      Result.◌>>◌ (guard (valid p.compression_type) (unknown_compression_type p.compression_type)) (
        Result.◌>>◌
          (guard (same (has_flag p.flags flag_optional_elements) (ltb 0 count))
            (flag_disagrees_with_elements count))
          (ok (
            if ltb 0 count
            then append_elements (append_compressed_int buf count) p.optional_elements
            else buf))))

unfoldable pub write_preface : Writer → Bytes → Preface → Written
unfolding preface_bytes write_built
write_preface w out p = write_built w out (preface_bytes p)
