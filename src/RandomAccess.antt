-- ===== src/RandomAccess.antt =====
-- performance/multi-node/random_access.c: the GUPS benchmark.
pub mod Stream
pub mod Layout
pub mod Table
pub mod Registration
pub mod Program
mod Tests
