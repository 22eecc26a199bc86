-- ===== src/Nanopb/Safe/Decode.antt =====
-- `pb_decode`, `pb_decode_noinit`, `pb_decode_delimited` and `pb_release` of
-- GFLGO/Pods/nanopb/pb_decode.c, and `pb_skip_field`, on any bytes.
use gflgo.Base.{ℕ, ◌≤◌, Option, List, arith, length, All, IsByte}
use gflgo.Nanopb.Outcome.{Error, Outcome, Run}
use gflgo.Nanopb.Istream.Memory.{over}
use gflgo.Nanopb.Wire.{pb_skip_field, pb_decode_tag}
use gflgo.Nanopb.Memory.{Memory}
use gflgo.Nanopb.World.{World, Allocator}
use gflgo.Nanopb.Field.{Field}
use gflgo.Nanopb.Schema.{Schema}
use gflgo.Nanopb.Decode.Extension.{Decoders}
use gflgo.Nanopb.Decode.Release.{pb_release}
use gflgo.Nanopb.Decode.Static.{in_substream}
use gflgo.Nanopb.Decode.Message.{pb_decode_noinit, pb_decode, pb_decode_delimited}
use gflgo.Nanopb.Safe.{Post, Post-weaken}
use gflgo.Nanopb.Safe.Stream.{InBuffer, in_buffer}
use gflgo.Nanopb.Safe.Wire.{Safe-pb_skip_field}
use gflgo.Nanopb.Safe.Stream.{TakesByte}
use gflgo.Nanopb.Safe.Wire.{IsTag, pb_decode_tag_less}
use gflgo.Nanopb.Safe.World.{Kept-refl, Sound}
use gflgo.Nanopb.Safe.Scalars.{Fine}
use gflgo.Nanopb.Safe.Layout.{Fits}
use gflgo.Nanopb.Safe.Parts.{with_substream-Fine, in_substream-FineSub}
use gflgo.Nanopb.Safe.Release.{pb_release-Fine}
use gflgo.Nanopb.Safe.Loop.{pb_decode_noinit-Fine, pb_decode-Fine}

-- The function returned true or false, with at most `left` bytes of the buffer left; all objects of
-- the memory are there, and what lies outside the region is as it was.
abbrev pub IsContained :
    {S : Type 0} → (ℕ → Type 0) → Memory → ℕ → Outcome (World S) (Unit {0}) → Type 0
IsContained {S} D m left o = Post (λ a w. Sound {S = S} D m 0 left w) (Sound {S = S} D m 0 left) o

Fine-IsContained :
    {S : Type 0} (D : ℕ → Type 0) (m : Memory) (e : Option Error) (bytes : List ℕ) (left : ℕ)
    (r : Run (World S) (Unit {0}))
    → All IsByte bytes
    → left ≤ length bytes
    → Fine D m 0 r
    → IsContained D m left (r (record { stream = over bytes left e; memory = m }))
Fine-IsContained {S} D m e bytes left r b le h =
    let w : World S = record { stream = over bytes left e; memory = m } in
    Post-weaken (λ a w'. Sound {S = S} D m 0 left w') (Sound {S = S} D m 0 left)
      (λ a w'. Unit {0} × Sound {S = S} D m 0 left w') (Sound {S = S} D m 0 left) (r w)
      (h.at left w (record {
        reads = in_buffer bytes left e (omega arith) (omega (arith, le)) b;
        keeps = Kept-refl D m;
      }))
      (λ a w' q. q.1) (λ w' q. q)

module _ {S : Type 0} (D : ℕ → Type 0) (m : Memory) (schema : Schema) (user : Decoders S)
    (malloc : Allocator) (e : Option Error) (bytes : List ℕ) (left : ℕ)
    (are_bytes : All IsByte bytes) (enough : left ≤ length bytes) where
  -- For a message whose structure fits in a region of the memory's objects (`Fits`): it has at
  -- least one field, as each of its submessages has, nested less than `depth` deep; the fields
  -- are static, none a range of extensions, their types known, their tags distinct and not 0;
  -- addresses are below 2 ^ 64, an array has fewer than 2 ^ 32 entries and bytes and lies apart
  -- from its count, and default values can be read. The values, flags and counts lie in the
  -- region, and so do four bytes from the beginning of an array without a count, even of a
  -- shorter one, since a default count is stored there. Whatever bytes a stream over memory has
  -- left, `pb_decode_noinit` returns true or false. It reads no byte behind the stream's, every
  -- object stays one, and nothing outside the region changes.
  pub pb_decode_noinit-IsContained :
      (depth : ℕ) (fields : List Field) (dest : ℕ)
      → Fits D m schema depth fields dest
      → IsContained D m left (
          pb_decode_noinit depth schema user malloc fields dest
            (record { stream = over bytes left e; memory = m }))
  pb_decode_noinit-IsContained depth fields dest fits =
      Fine-IsContained D m e bytes left (pb_decode_noinit depth schema user malloc fields dest)
        are_bytes enough (pb_decode_noinit-Fine D m schema user malloc depth 0 fields dest fits)

  -- For a message whose structure fits in a region of the memory's objects (`Fits`): it has at
  -- least one field, as each of its submessages has, nested less than `depth` deep; the fields
  -- are static, none a range of extensions, their types known, their tags distinct and not 0;
  -- addresses are below 2 ^ 64, an array has fewer than 2 ^ 32 entries and bytes and lies apart
  -- from its count, and default values can be read. The values, flags and counts lie in the
  -- region, and so do four bytes from the beginning of an array without a count, even of a
  -- shorter one, since a default count is stored there. Whatever the bytes, `pb_decode`, which
  -- sets the fields to their defaults, decodes, and releases the message when that fails,
  -- returns true or false. It reads no byte behind the stream's, every object stays one, and
  -- nothing outside the region changes.
  pub pb_decode-IsContained :
      (depth : ℕ) (fields : List Field) (dest : ℕ)
      → Fits D m schema depth fields dest
      → IsContained D m left (
          pb_decode depth schema user malloc fields dest
            (record { stream = over bytes left e; memory = m }))
  pb_decode-IsContained depth fields dest fits =
      Fine-IsContained D m e bytes left (pb_decode depth schema user malloc fields dest) are_bytes
        enough (pb_decode-Fine D m schema user malloc depth 0 fields dest fits)

  -- For a message whose structure fits in a region of the memory's objects (`Fits`): it has at
  -- least one field, as each of its submessages has, nested less than `depth` deep; the fields
  -- are static, none a range of extensions, their types known, their tags distinct and not 0;
  -- addresses are below 2 ^ 64, an array has fewer than 2 ^ 32 entries and bytes and lies apart
  -- from its count, and default values can be read. The values, flags and counts lie in the
  -- region, and so do four bytes from the beginning of an array without a count, even of a
  -- shorter one, since a default count is stored there. Whatever the bytes, and whatever length
  -- they begin with, `pb_decode_delimited` returns true or false. It reads no byte behind the
  -- stream's, every object stays one, and nothing outside the region changes.
  pub pb_decode_delimited-IsContained :
      (depth : ℕ) (fields : List Field) (dest : ℕ)
      → Fits D m schema depth fields dest
      → IsContained D m left (
          pb_decode_delimited depth schema user malloc fields dest
            (record { stream = over bytes left e; memory = m }))
  unfolding pb_decode_delimited
  pb_decode_delimited-IsContained depth fields dest fits =
      Fine-IsContained D m e bytes left _ are_bytes enough (
        with_substream-Fine D m 0
          (λ sub. in_substream sub (pb_decode depth schema user malloc fields dest))
          (in_substream-FineSub D m 0 (pb_decode depth schema user malloc fields dest)
            (λ behind. pb_decode-Fine D m schema user malloc depth behind fields dest fits)))

  -- For a message whose structure fits in a region of the memory's objects (`Fits`): it has at
  -- least one field, as each of its submessages has, nested less than `depth` deep; the fields
  -- are static, none a range of extensions, their types known, their tags distinct and not 0;
  -- addresses are below 2 ^ 64, an array has fewer than 2 ^ 32 entries and bytes and lies apart
  -- from its count, and default values can be read. The values, flags and counts lie in the
  -- region, and so do four bytes from the beginning of an array without a count, even of a
  -- shorter one, since a default count is stored there. Whatever counts and union tags the
  -- structure has, `pb_release` returns true or false, leaves every object one, and changes
  -- nothing outside the region.
  pub pb_release-IsContained :
      (depth : ℕ) (fields : List Field) (dest : ℕ)
      → Fits D m schema depth fields dest
      → IsContained {S = S} D m left (
          pb_release depth schema malloc fields dest
            (record { stream = over bytes left e; memory = m }))
  pb_release-IsContained depth fields dest fits =
      Fine-IsContained D m e bytes left (pb_release depth schema malloc fields dest) are_bytes
        enough (pb_release-Fine D m 0 schema malloc depth fields dest fits)

-- Whatever the wire type and whatever the bytes of a stream over memory, `pb_skip_field` returns true
-- or false, with no more bytes left than before, all of them in the memory.
pub pb_skip_field-InBuffer :
    (S : Type 0) (e : Option Error) (bytes : List ℕ) (left wire_type : ℕ)
    → All IsByte bytes
    → left ≤ length bytes
    → Post
        (λ a s. InBuffer 0 left s)
        (InBuffer 0 left)
        (pb_skip_field {S = S} wire_type (over bytes left e))
pb_skip_field-InBuffer S e bytes left wire_type b le =
    Post-weaken (λ a s. InBuffer {S = S} 0 left s) (InBuffer {S = S} 0 left)
      (λ a s. Unit {0} × InBuffer {S = S} 0 left s) (InBuffer {S = S} 0 left)
      (pb_skip_field wire_type (over bytes left e))
      ((Safe-pb_skip_field 0 wire_type).at left (over bytes left e)
        (in_buffer bytes left e (omega arith) (omega (arith, le)) b))
      (λ a s q. q.1) (λ s q. q)

-- Whatever the bytes of a stream over memory, `pb_decode_tag` returns true, with a tag below 2 ^ 29 and
-- a wire type below 8, and at least one byte less to read; or it returns false, with no more bytes left
-- than before. The bytes left are in the memory.
pub pb_decode_tag-IsTag :
    (S : Type 0) (e : Option Error) (bytes : List ℕ) (left : ℕ)
    → All IsByte bytes
    → left ≤ length bytes
    → Post
        (λ t st. TakesByte 0 IsTag left t st.stream)
        (λ st. InBuffer 0 left st.stream)
        (pb_decode_tag {S = S} (over bytes left e))
pb_decode_tag-IsTag S e bytes left b le =
    pb_decode_tag_less 0 left (over bytes left e)
      (in_buffer bytes left e (omega arith) (omega (arith, le)) b)
