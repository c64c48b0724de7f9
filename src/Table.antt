-- ===== src/Table.antt =====
-- src/storage/table.cpp: the pages of a table's file and their allocation.
pub mod Bits
pub mod Allocation
pub mod Marks
pub mod Ready
pub mod Files
pub mod Fresh
pub mod Creation
