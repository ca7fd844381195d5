-- ===== src/Work.antt =====
-- subsys/base/src/fd_work.c: queues of tasks that run after a delay. Numbers of the floating point
-- unit are the parameter `Arithmetic`; what a task does is the parameter `run`, which may call the
-- functions of these files again.
pub mod Types
pub mod Queues
pub mod Run
pub mod Valid
pub mod Calls
pub mod Runs
pub mod Stage
pub mod Round
pub mod Lookup
pub mod Submission
mod Tests
