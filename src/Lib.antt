-- ===== src/Lib.antt =====
-- AdvanceDB: a relational database whose storage engine keeps slotted pages of 2048 bytes in a
-- file, behind a buffer pool, and whose query side plans statements and runs them as iterators.
--
-- The parts and the files that model them. Paths are from the repository's root.
--
-- Bytes, Bytes/Blocks, Bytes/Words: memory as the code reads and writes it. A page's memory is a
--   function from offsets to bytes with little-endian words; a byte vector is a list.
-- Page (include/storage/page.hpp, src/storage/page.cpp, src/storage/slot_helpers.cpp): the packed
--   header at its offsets, `init_page`, and the slot directory at the page's end with `slot_ptr`,
--   `insert_slot` and `remove_slot`, which throw.
-- Record (include/storage/record.hpp, src/storage/record.cpp, `slot_key` and `slot_value` of
--   src/storage/slot_helpers.cpp, src/storage/btree/helpers.cpp): the records behind the slots.
--   Record/Cell has the code; Record/Sorted is the abstract page, a sorted list of entries with
--   `position`, `find`, `put` and `remove`; Record/View reads a page as such a list. The binary
--   search runs on fuel `cell_count + 1`, and the interval shrinks in every round.
-- BufferPool (include/storage/buffer_pool.hpp, src/storage/buffer_pool.cpp): frames, the page table
--   and the LRU list, over a disk that is a parameter (BufferPool/Disk: page-sized reads and writes
--   of src/storage/disk_manager.cpp, with the law that a page that was written is read back). The
--   disk may fail on any call, and a write that fails may leave anything in its page's place.
--   BufferPool/Coherence has the invariant and what a page id reads as.
--   BufferPool/Visit is the way the tree uses a page: fetch it, change it through the pointer, unpin
--   it; BufferPool/Ready shows when that cannot fail.
-- PageFile (src/storage/disk_manager.cpp): the reads and writes of pages in a file, over an
--   interface of the system's calls; a read takes at most 2049 rounds, as each but the last gets a
--   byte. BufferPool/Disk states for the pool what PageFile/Writing shows of these, but for the
--   reads, which may fail at any time here.
-- Table (src/storage/table.cpp): the allocation bitmap in page 1 of a table's file, `allocate_page`
--   and `free_page` over the pool; Table/Files has `create_table` and `open_table`, over an
--   interface of the file system.
-- Btree (include/storage/btree.hpp, include/storage/table_handle.hpp, src/storage/btree): the tree of
--   a table over the pool. Entry, InternalView and InsertEntry have the entries of an internal page
--   (internal.cpp), Handle the descent to a leaf and Split the split of a leaf (leaf.cpp), Parent the
--   split of an internal page and the insertion into a parent (internal.cpp), Insert, Siblings,
--   Merge, Delete and Scan the operations (btree.cpp). Tree is the abstract tree: a page id leads
--   down to a leaf. An assert, a read through `nullptr` and an exception of the slot functions are a
--   `BtreeError`. The descent runs for the code's own limit of 101 rounds; the binary searches on
--   fuel `cell_count + 1`; the insertion into a parent and the range scan, which follow the page
--   ids that they read, on `rounds`, with the error `out_of_rounds`. The page UINT32_MAX of a failed
--   descent is `none`, and the memory of a page that is declared without a value is a parameter.
-- Relational (include/storage/relational, src/storage/relational): the catalog and the row codec.
-- Schema (src/parser/statements/create.h, src/storage_new/schema_serializer.cpp): CREATE TABLE
--   statements and their binary form.
-- Planner (src/planner/plan.h, src/planner/planner.cpp, src/parser/statements): statements, plans
--   and `build_plan`.
-- Executor (src/executor): expressions on tuples, the dummy storage, and the iterator tree that
--   `build_executor` makes of a plan and `execute_plan` pulls on. `next` runs on fuel: the depth of
--   the tree and the rows of the table, for which Executor/Pipeline proves that it suffices.
-- Transaction (include/storage_new/transaction_manager.h, src/storage_new/transaction_manager.cpp):
--   the calls of `execute` and the worker thread as a step relation, one step for each stretch of
--   code under the mutex, and two for the increment outside it, a read and a write, between which
--   other calls can run. The work of a call's function is a parameter.
-- Analyser (include/analyser/analyser.h, src/analyser/analyser.cpp): the checks of USE and CREATE,
--   over an interface of the managers that carry them out.
-- Tests: the theorems at concrete pages, pools, rows, statements and runs.
--
-- Conventions. Fixed-width integers are natural numbers with the wrap-around written out; the ints
-- of the executor and of the row codec are 32-bit patterns. An exception is an `err` or a `none`. A
-- pointer into a page with its length is the list of the bytes it shows; `nullptr` is `none`.
--
-- Not modelled: the storage engine interface, the storage_new managers (catalog, storage,
-- databases), the SQL parser and the orchestrator, which later work can add on these foundations;
-- the network, the server, the client, the demonstration programs and the experiments, which are
-- input and output or separate programs. Of the tree's splits and merges the effect on the whole
-- tree is not stated yet, only on the pages involved.
pub mod Prelude
pub mod Bytes
pub mod Page
pub mod Record
pub mod BufferPool
pub mod PageFile
pub mod Relational
pub mod Schema
pub mod Planner
pub mod Executor
pub mod Table
pub mod Btree
pub mod Transaction
pub mod Analyser
pub mod Tests
