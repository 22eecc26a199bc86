-- ===== src/Nanopb/Decode/Takes.antt =====
-- The field decoders of GFLGO/Pods/nanopb/pb_decode.c take exactly the bytes of a value and store it.
use gflgo.Base.{ℕ, ◌^◌, ◌<◌, ◌≡◌, Option, some, List, arith}
use gflgo.Nanopb.Outcome.{Error, ok, ◌>>=◌}
use gflgo.Nanopb.Memory.{Memory, store}
use gflgo.Nanopb.Istream.Memory.{over}
use gflgo.Nanopb.World.{write_value}
use gflgo.Nanopb.Field.{Field}
use gflgo.Nanopb.Encode.Varint.{varint}
use gflgo.Nanopb.Encode.RoundTrip.{decode-varint}
use gflgo.Nanopb.Decode.{zero_extend, store_clamped, unchanged, pb_dec_uvarint}
use gflgo.Nanopb.Decode.Scalars.{IsWidth, one, two, four, eight}
use gflgo.Nanopb.Decode.RoundTrip.{unsigned_same}
use gflgo.Nanopb.Decode.Steps.{DecodesTo}

module _ {S : Type 0} (e : Option Error) (p : ℕ) (m m' : Memory) where
  store_unsigned :
      (n v left : ℕ) (behind : List ℕ)
      → IsWidth n
      → v < 256 ^ n
      → store m p n v ≡ some m'
      → (store_clamped {S = S} zero_extend p n v >>= unchanged v)
          (record { stream = over behind left e; memory = m })
        ≡ ok tt (record { stream = over behind left e; memory = m' })
  unfolding store_clamped unchanged write_value
  store_unsigned _ v left behind one small stores = ground (arith, stores)
  store_unsigned _ v left behind two small stores = ground (arith, stores)
  store_unsigned _ v left behind four small stores = ground (arith, stores)
  store_unsigned _ v left behind eight small stores = ground (arith, stores)

  pub uvarint-DecodesTo :
      (field : Field) (v : ℕ)
      → IsWidth field.data_size
      → v < 256 ^ field.data_size
      → store m p field.data_size v ≡ some m'
      → DecodesTo {S = S} e pb_dec_uvarint field p (varint v) m m'
  unfolding pb_dec_uvarint
  uvarint-DecodesTo field v width small stores left behind =
      rw (decode-varint {S = S} e v left behind (unsigned_same field.data_size v width small).2)
        (store_unsigned field.data_size v left behind width small stores)
