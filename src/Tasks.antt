-- ===== src/Tasks.antt =====
-- Scheduled tasks (src/tasks/tasks.service.ts): prompts that run on a cron schedule or once, and the
-- check-in that each workspace gets from the system. Other requests may change the table while a
-- task's prompt runs.
pub mod Rows
pub mod Requests
pub mod Runs
pub mod Laws
pub mod CheckIn
