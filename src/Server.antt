-- ===== src/Server.antt =====
-- crates/corpus-core: the server's store of artifacts, and the protocol that fills it.
pub mod Hash
pub mod Cas
pub mod Classify
pub mod Catalog
pub mod Ingest
pub mod Fuzzy
pub mod Hunts
pub mod Rules
pub mod Triggers
pub mod Lsh
mod Examples
