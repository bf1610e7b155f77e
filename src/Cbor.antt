-- ===== src/Cbor.antt =====
-- The cbor library: include/cborcpp and src/cborcpp.
pub mod Value
pub mod Input
pub mod Encoder
pub mod Output
pub mod Builder
pub mod Entries
pub mod Decoder
pub mod Codec
pub mod Diff
pub mod RoundTrip
mod Tests
mod BufferTests
