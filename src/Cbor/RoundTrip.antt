-- ===== src/Cbor/RoundTrip.antt =====
-- What the decoder makes of the bytes that the encoder writes.
pub mod Numbers
pub mod Codable
pub mod Headers
pub mod Texts
pub mod Scalars
pub mod Objects
pub mod Build
pub mod Whole
pub mod Heap
pub mod Clone
pub mod Limits
