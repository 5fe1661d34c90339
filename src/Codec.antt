-- ===== src/Codec.antt =====
-- utils/codec: the zero-copy binary codec that accounts and blocks are stored with.
pub mod Source
pub mod Sink
pub mod VarUint
pub mod Canonical
pub mod RoundTrip
mod Examples
