-- ===== src/Nanopb/Field/WireType.antt =====
-- The pb_wire_type_t numbers of GFLGO/Pods/nanopb/pb.h.
use Prim.Native.Nat.{ℕ}

abbrev pub varint : ℕ
varint = 0

abbrev pub fixed64 : ℕ
fixed64 = 1

abbrev pub string : ℕ
string = 2

abbrev pub fixed32 : ℕ
fixed32 = 5
