-- ===== src/Lifecycle.antt =====
-- AsyncRun of cluster_core.h, and the tasks that OneCluster starts and waits for.
pub mod Tasks
pub mod Stopping
