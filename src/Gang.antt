-- ===== src/Gang.antt =====
-- utils/Gang.h: the thread gang, its barrier and the parallel routines of `GangUtil`.
pub mod Atomic
pub mod Barrier
pub mod Partition
pub mod PerCpu
pub mod Steal
pub mod Submit
pub mod Blocks
pub mod Reduce
pub mod Scan
pub mod Count
pub mod Dedup
mod Tests
