-- ===== src/Storage.antt =====
-- storage/: the values that records hold, the filter clauses and the schema.
pub mod Error
pub mod Value
pub mod Filter
pub mod Schema
pub mod Contract
pub mod Swap
