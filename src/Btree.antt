-- ===== src/Btree.antt =====
-- src/storage/btree/ and include/storage/btree.hpp: the B+ tree of a table. Entry, Tree/* and the
-- modules below hold the code, the others what it does.
pub mod Entry
pub mod InternalView
pub mod FindChild
pub mod Handle
pub mod Tree
pub mod Update
pub mod Local
pub mod Reads
pub mod Search
pub mod Split
pub mod Fill
pub mod SplitRead
pub mod SplitPages
pub mod SplitStore
pub mod SplitLeaf
pub mod EntryAppend
pub mod InsertEntry
pub mod Parent
pub mod Insert
pub mod InsertLeaf
pub mod Siblings
pub mod Merge
pub mod Delete
pub mod Scan
pub mod ScanChain
pub mod DeleteLeaf
