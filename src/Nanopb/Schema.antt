-- ===== src/Nanopb/Schema.antt =====
-- What the pointers of a pb_field_t array and of a message structure lead to outside the memory:
-- the arrays of submessages, and the pb_extension_type_t objects of GFLGO/Pods/nanopb/pb.h.
use gflgo.Base.{ℕ, ◌+◌, List, Option}
use gflgo.Nanopb.Field.{Field}

-- A pb_extension_type_t: two function pointers, 0 for NULL, and the pb_field_t that `arg` points at.
pub record ExtensionType : Type 0 where
  pub decode : ℕ
  pub encode : ℕ
  pub arg : List Field

-- The pb_field_t arrays by number, and the extension types by address.
pub record Schema : Type 0 where
  pub messages : ℕ → List Field
  pub extension_type : ℕ → Option ExtensionType

-- Offsets in a pb_extension_t and in a pb_callback_t.
abbrev pub dest_at : ℕ → ℕ
dest_at extension = extension + 8

abbrev pub next_at : ℕ → ℕ
next_at extension = extension + 16

abbrev pub found_at : ℕ → ℕ
found_at extension = extension + 24

abbrev pub arg_at : ℕ → ℕ
arg_at callback = callback + 8
