-- ===== src/Tests.antt =====
-- The definitions on concrete inputs.
pub mod Runlists
pub mod Msts
pub mod Bootsects
pub mod Names
pub mod Bitmaps
pub mod Devices
pub mod PageCaches
pub mod Utfs
pub mod Compressed
