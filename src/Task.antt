-- ===== src/Task.antt =====
-- include/preempt/task.h: the tasks over `preempt::thread`.
pub mod Template
pub mod Mono
pub mod Poly
pub mod Critical
pub mod Monopoly
pub mod Contract
mod Tests
