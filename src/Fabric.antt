-- ===== src/Fabric.antt =====
-- performance/multi-node: how the programs open and close the objects of libfabric, and how they
-- wait for completions.
pub mod Libfabric
pub mod Ends
pub mod Align
pub mod Threads
pub mod Regions
pub mod Gnix
pub mod AuthKey
pub mod OneSided
pub mod Pingpong
pub mod Completion
pub mod Mbw
mod Tests
