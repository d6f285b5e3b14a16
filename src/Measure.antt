-- ===== src/Measure.antt =====
-- What the benchmark programs do between their set-up and their end: the sizes that they go
-- through, the messages of two ranks, and the results of the threads.
pub mod Sizes
pub mod Results
pub mod Rounds
pub mod Pingpong
pub mod OneSided
pub mod Mbw
mod Tests
