-- ===== src/Memory.antt =====
-- storage/memory/: the in-memory adapter.
-- A record object is a cell of a heap, so that a table and its index share it, as the Go maps do.
-- The rows, cells and index of one model stand together: no operation shares a record between
-- models. The index of a model that has none yet is the empty one, as in `indexFor`.
pub mod Index
pub mod Operations
pub mod Invariant
pub mod View
pub mod Conflicts
pub mod Refines
pub mod Lookup
pub mod Updates
pub mod Deletes
pub mod Batch
pub mod Unique
pub mod Transaction
pub mod Traces
