-- ===== src/Transaction.antt =====
-- include/storage_new/transaction_manager.h and src/storage_new/transaction_manager.cpp.
pub mod Manager
pub mod Order
pub mod Sound
