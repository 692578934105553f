-- ===== src/State.antt =====
-- cli/lib/state.py: the JSON files that hold the SVMs, the volumes and the snapshots. A file is
-- `none` until it is first written; the time stamp of an operation is an argument.
pub mod Table
mod Tests
pub mod Files
