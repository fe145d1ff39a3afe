-- ===== src/Zvariant.antt =====
-- The parts of the crate zvariant that the encodings share.
pub mod Padding
pub mod Depths
pub mod Framing
mod Runs
pub mod Dbus
