-- ===== src/Nanopb/Field/Atype.antt =====
-- The PB_ATYPE numbers of GFLGO/Pods/nanopb/pb.h: how a field is stored.
use Prim.Native.Nat.{ℕ}

abbrev pub static : ℕ
static = 0x00

abbrev pub callback : ℕ
callback = 0x40

abbrev pub pointer : ℕ
pointer = 0x80
