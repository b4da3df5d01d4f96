-- ===== src/Tests.antt =====
-- Concrete inputs: each theorem with hypotheses is applied at one of them.
pub mod Sample
pub mod Flash
pub mod Network
pub mod Settings
pub mod Ota
pub mod Diagnostics
pub mod Codec
pub mod Server
pub mod Input
