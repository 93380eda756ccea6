-- ===== src/Extern.antt =====
-- Code outside the repository, as interfaces.
pub mod Json
pub mod Rocks
pub mod Tonic
pub mod Wire
