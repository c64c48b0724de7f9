-- ===== src/Tests.antt =====
-- The theorems at concrete pages, pools, rows, statements and runs.
pub mod Pages
pub mod Pools
pub mod Files
pub mod PageFiles
pub mod TreePages
pub mod Trees
pub mod SmallTrees
pub mod ScanRuns
pub mod Splits
pub mod Rows
pub mod Statements
pub mod Transactions
pub mod Analysis
