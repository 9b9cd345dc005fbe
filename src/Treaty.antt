-- ===== src/Treaty.antt =====
-- src/treaty.rs: the numbers that the VM and the image-side compiler agree on.
pub mod Words
pub mod Frames
pub mod Opcodes
pub mod Classes
pub mod Layout
pub mod Prims
pub mod Image
