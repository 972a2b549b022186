-- ===== src/Examples.antt =====
-- Samples, tests, and the theorems at concrete values.
mod Toy
mod Formats
mod Samples
mod Witnesses
mod TokenWitnesses
mod Nested
mod Refused
mod Texts
