-- ===== src/Task.antt =====
-- The databases of a site: handlers/task.
pub mod Allocation
pub mod Database
pub mod Changes
pub mod Redis
pub mod Mysql
pub mod Mongo
