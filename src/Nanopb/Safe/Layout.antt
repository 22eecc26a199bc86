-- ===== src/Nanopb/Safe/Layout.antt =====
-- Message structures that the functions of GFLGO/Pods/nanopb/pb_decode.c can work on: each field of
-- the pb_field_t array is static, and what it takes up lies in the region that may be written.
use gflgo.Base.{
  arith, Bool-cases, inl, inr, ◌==◌, true, ℕ, zero, suc, ◌+◌, ◌*◌, ◌^◌, ◌≤◌, ◌<◌, ◌≡◌, ◌≢◌, ◌⊎◌,
  List, length,
}
use gflgo.Nanopb.Memory.{Memory}
use gflgo.Nanopb.Memory.Laws.{Owns}
use gflgo.Nanopb.Field.{Ptr, null, default_at, submessage, Field, pb_ltype, pb_htype, pb_atype}
use gflgo.Nanopb.Field.Ltype
use gflgo.Nanopb.Field.Htype
use gflgo.Nanopb.Field.Atype
use gflgo.Nanopb.Schema.{Schema}
use gflgo.Nanopb.Iter.{Iter, current, field_at, is_wanted}
use gflgo.Nanopb.Iter.Structure.{iter_at}
use gflgo.Nanopb.Iter.Order.{HasTags}
use gflgo.Nanopb.Decode.Search.{HasNoExtension}
use gflgo.Nanopb.Decode.Steps.{HasDistinctTags}
use gflgo.Nanopb.Safe.World.{Writable}

-- A default value that can be read, if there is one.
abbrev pub HasDefault : Memory → ℕ → Ptr → Type 0
HasDefault m size null = Unit {0}
HasDefault m size (default_at q) = Owns m q size
HasDefault m size (submessage n) = ⊥

module _ (D : ℕ → Type 0) (m : Memory) (schema : Schema) (inner : List Field → ℕ → Type 0) where
  -- A value of the field fits at the address `a`: a submessage by `inner`.
  pub record EntryFits (field : Field) (a : ℕ) : Type 0 where
    pub static : pb_atype field.type ≡ Atype.static
    pub known : pb_ltype field.type ≤ 9
    pub no_extension : pb_ltype field.type ≢ Ltype.extension
    pub room : Writable D m a field.data_size
    pub room_fixed32 : pb_ltype field.type ≡ Ltype.fixed32 → 4 ≤ field.data_size
    pub room_fixed64 : pb_ltype field.type ≡ Ltype.fixed64 → 8 ≤ field.data_size
    pub nested : pb_ltype field.type ≡ Ltype.submessage → (n : ℕ) × (field.ptr ≡ submessage n)
    pub message :
        pb_ltype field.type ≡ Ltype.submessage
        → (n : ℕ) → field.ptr ≡ submessage n
        → inner (schema.messages n) a
    pub default : pb_ltype field.type ≢ Ltype.submessage → HasDefault m field.data_size field.ptr

  -- An array's entries fit, one behind the other, and apart from the count. Where the structure has
  -- no count, `p_size` is `p_data`, and pb_decode.c:843 stores the default count 0 over the first four
  -- bytes of the array, or beyond it if it is shorter: these four bytes have to be in the region.
  pub record ArrayFits (iter : Iter) : Type 0 where
    pub entry :
        (n : ℕ)
        → n < (current iter).array_size
        → EntryFits (current iter) (iter.p_data + (current iter).data_size * n)
    pub small : (current iter).data_size * (current iter).array_size < 2 ^ 32
    pub count_fits : (current iter).array_size < 2 ^ 32
    pub near : iter.p_data + (current iter).data_size * (current iter).array_size < 2 ^ 64
    pub counted : iter.p_size ≢ iter.p_data → Writable D m iter.p_size 4
    pub uncounted : iter.p_size ≡ iter.p_data → Writable D m iter.p_data 4
    pub apart :
        (iter.p_size ≡ iter.p_data)
        ⊎ (iter.p_size + 4 ≤ iter.p_data)
        ⊎ (iter.p_data + (current iter).data_size * (current iter).array_size ≤ iter.p_size)

  -- A count of four bytes may be written.
  pub ArrayFits-count : (iter : Iter) → ArrayFits iter → Writable D m iter.p_size 4
  ArrayFits-count iter array = elim (Bool-cases (iter.p_size == iter.p_data)) [
    | inl same ↦ let e : iter.p_size ≡ iter.p_data = ground arith in rw e (array.uncounted e)
    | inr apart ↦ array.counted (ground arith)
  ]

  -- The field that the iterator stands at fits.
  pub record FieldFits (iter : Iter) : Type 0 where
    pub static : pb_atype (current iter).type ≡ Atype.static
    pub known : pb_ltype (current iter).type ≤ 9
    pub no_extension : pb_ltype (current iter).type ≢ Ltype.extension
    pub nested :
        pb_ltype (current iter).type ≡ Ltype.submessage
        → (n : ℕ) × ((current iter).ptr ≡ submessage n)
    pub address : iter.p_data < 2 ^ 64
    pub value : pb_htype (current iter).type ≢ Htype.repeated → EntryFits (current iter) iter.p_data
    pub array : pb_htype (current iter).type ≡ Htype.repeated → ArrayFits iter
    pub flag :
        pb_htype (current iter).type ≡ Htype.optional
        → (iter.p_size ≡ iter.p_data) ⊎ Writable D m iter.p_size 1
    pub which : pb_htype (current iter).type ≡ Htype.oneof → Writable D m iter.p_size 4

-- A message of these fields, of which there is at least one, fits at `dest`, submessages nested less
-- than `depth` deep.
unfoldable pub Fits : (ℕ → Type 0) → Memory → Schema → ℕ → List Field → ℕ → Type 0
Fits D m schema zero fields dest = ⊥
Fits D m schema (suc depth) fields dest =
    HasTags fields
    × HasDistinctTags fields
    × (0 < length fields)
    × HasNoExtension fields
    × ((i : ℕ)
        → i < length fields
        → FieldFits D m schema (Fits D m schema depth) (iter_at fields dest i))

-- Nothing is nested less than 0 deep.
pub Fits-some :
    (D : ℕ → Type 0) (m : Memory) (schema : Schema) (fields : List Field) (dest : ℕ)
    → Fits D m schema 0 fields dest
    → ⊥
unfolding Fits
Fits-some D m schema fields dest h = h

-- The iterator stands at the field of the tag.
abbrev pub Stands : List Field → ℕ → ℕ → Iter → Type 0
Stands fields dest tag iter =
    (j : ℕ) × (j < length fields)
    × (is_wanted tag (field_at fields j) ≡ true)
    × (iter ≡ iter_at fields dest j)
