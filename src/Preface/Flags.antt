-- ===== src/Preface/Flags.antt =====
-- The bit tests of the preface as arithmetic.
use zchunk.Prelude.{ℕ, ◌/◌, ◌%◌, ◌≡◌, ◌<◌, ◌↔◌, true, arith}
use zchunk.Prelude.Bits.{bit_and-one, bit_and_two, bit_and_four, bit_and_low7}
use zchunk.Preface.{
  has_flag, unknown_bits, flag_data_streams, flag_optional_elements, flag_uncompressed_source,
}

-- A flag word passes exactly if it is below 8, and each test reads one of its three bits.
pub flags_lem :
    (f : ℕ)
    → ((unknown_bits f ≡ 0) ↔ (f < 8))
      × ((has_flag f flag_data_streams ≡ true) ↔ (f % 2 ≡ 1))
      × ((has_flag f flag_optional_elements ≡ true) ↔ (f / 2 % 2 ≡ 1))
      × ((has_flag f flag_uncompressed_source ≡ true) ↔ (f / 4 % 2 ≡ 1))
unfolding unknown_bits has_flag
flags_lem f = ground (arith, bit_and_low7 f, bit_and-one f, bit_and_two f, bit_and_four f)
