-- ===== src/Zvariant/Dbus/RoundTrip.antt =====
-- What zvariant/src/dbus/ser.rs writes is what zvariant/src/dbus/de.rs reads.
pub mod Ahead
pub mod Combine
pub mod Aligned
pub mod Readable
pub mod Scalars
pub mod Arrays
pub mod Variants
pub mod Elements
pub mod Kinds
pub mod Whole
pub mod Written
mod Runs
