-- ===== src/V2.antt =====
-- src/serialization/v2.rs: the binary format of version 2.
pub mod Encode
pub mod Reader
pub mod Decode
pub mod Varint
pub mod Bytewise
pub mod Fields
pub mod Tagged
pub mod Steps
pub mod RoundTrip
pub mod Taken
pub mod CaveatsRead
pub mod Canonical
pub mod Stages
pub mod CaveatStages
pub mod Advance
pub mod Progress
pub mod Safety
pub mod Valid
