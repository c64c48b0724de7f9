-- ===== src/Page.antt =====
-- The slotted page of the storage engine: the header's fields, the slot directory, and what the
-- directory's operations do.
pub mod PageHeader
pub mod SlotHelpers
pub mod Directory
pub mod Rewrite
