-- ===== src/Relational.antt =====
-- include/storage/relational: schemas and the catalog that holds them, and the row codec.
pub mod Catalog
pub mod RowCodec
pub mod RoundTrip
pub mod Accepted
