-- ===== src/Nanopb/Field.antt =====
-- pb_field_t and its type byte, of GFLGO/Pods/nanopb/pb.h, built with PB_FIELD_32BIT (pb_size_t is
-- a uint32_t).
pub mod Ltype
pub mod Htype
pub mod Atype
pub mod WireType
use gflgo.Base.{ℕ, bit_and}
use gflgo.Base.Int.{ℤ}

-- `field->ptr`: NULL, the address of a default value, or the number of a pb_field_t array.
pub data Ptr : Type 0 where
  null : Ptr
  default_at : ℕ → Ptr
  submessage : ℕ → Ptr

pub record Field : Type 0 where
  pub tag : ℕ
  pub type : ℕ
  pub data_offset : ℕ
  pub size_offset : ℤ
  pub data_size : ℕ
  pub array_size : ℕ
  pub ptr : Ptr

abbrev pub pb_ltype : ℕ → ℕ
pb_ltype type = bit_and type 0x0f

abbrev pub pb_htype : ℕ → ℕ
pb_htype type = bit_and type 0x30

abbrev pub pb_atype : ℕ → ℕ
pb_atype type = bit_and type 0xc0
