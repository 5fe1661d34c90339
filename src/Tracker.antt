-- ===== src/Tracker.antt =====
-- tracker: the event tracker, which follows the head of a chain and the logs of its blocks.
pub mod Chain
pub mod Provider
pub mod Reconcile
pub mod Entry
pub mod Inmem
pub mod Logs
pub mod Follow
pub mod Sync
mod Examples
