-- ===== src/Record.antt =====
-- The records of a page: include/storage/record.hpp, src/storage/record.cpp, the two readers of
-- src/storage/slot_helpers.cpp and src/storage/btree/helpers.cpp, with what they do to the list of
-- records that a page holds.
pub mod Cell
pub mod Compare
pub mod Sorted
pub mod View
pub mod Search
pub mod Frame
pub mod Append
pub mod Insert
pub mod Delete
pub mod Fresh
pub mod Packing
pub mod Halves
