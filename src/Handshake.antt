-- ===== src/Handshake.antt =====
-- The authentication handshake: zbus/src/connection/handshake/.
pub mod Utf8
pub mod Command
pub mod Common
pub mod Server
pub mod Client
mod Runs
mod Dialogs
