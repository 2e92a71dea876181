-- ===== src/Worker/Laws.antt =====
-- Laws of the memory and of the log of a stateful worker, by the part that they speak of.
pub mod Seen
pub mod Repeats
pub mod Counts
pub mod Snapshot
pub mod Compaction
pub mod Tracking
pub mod Append
pub mod Replay
pub mod Invariant
