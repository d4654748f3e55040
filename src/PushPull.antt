-- ===== src/PushPull.antt =====
-- simple_push_pull/tasks_core: a ventilator that pushes tasks, workers, and a collector.
pub mod Tasks
pub mod Collected
