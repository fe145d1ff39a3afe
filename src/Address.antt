-- ===== src/Address.antt =====
-- D-Bus addresses (zbus/src/address).
pub mod Percent
