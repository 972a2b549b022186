-- ===== src/V1.antt =====
-- src/serialization/v1.rs, the binary format of packets.
pub mod Encode
pub mod Reader
pub mod Decode
pub mod Header
pub mod Packets
pub mod Machine
pub mod Groups
pub mod RoundTrip
pub mod Loose
pub mod TooLarge
pub mod Safety
pub mod Valid
