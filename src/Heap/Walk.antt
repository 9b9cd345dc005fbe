-- ===== src/Heap/Walk.antt =====
-- src/heap.rs: `walk_region` over the objects that a bump allocator laid down.
pub mod Tiles
pub mod History
pub mod Apart
