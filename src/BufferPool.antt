-- ===== src/BufferPool.antt =====
-- The buffer pool: include/storage/buffer_pool.hpp and src/storage/buffer_pool.cpp, over the disk
-- manager's interface.
pub mod Disk
pub mod Pool
pub mod Coherence
pub mod Fetch
pub mod Counts
pub mod Spare
pub mod Visit
pub mod Ready
pub mod Flush
pub mod NewPage
