-- ===== src/Nanopb.antt =====
-- nanopb, the protocol buffers codec: GFLGO/Pods/nanopb.
mod Runs
mod FieldRuns
mod MessageRuns
mod DecodeRuns
mod SafeRuns
pub mod Outcome
pub mod Istream
pub mod Varint
pub mod Memory
pub mod Ostream
pub mod Encode
pub mod Field
pub mod Wire
pub mod Schema
pub mod World
pub mod Decode
pub mod Iter
pub mod Safe
pub mod RoundTrip
