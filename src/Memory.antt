-- ===== src/Memory.antt =====
-- The parts of Memory/: the size bins, the shared pool of blocks and the caches of the threads.
pub mod SizeBin
pub mod GlobalBlockPool
pub mod ThreadBlockCache
