-- ===== src/Pmi.antt =====
-- common/ct_utils.c: collective operations for the benchmarks over the key-value store of PMI.
pub mod Encoding
pub mod Key
pub mod Store
pub mod Message
pub mod Collective
pub mod Published
pub mod Gather
pub mod Reorder
pub mod Allgather
mod Tests
