-- ===== src/Site.antt =====
-- The staging site controller, controllers/site/stagingsite_controller.go.
pub mod Schedule
pub mod Status
pub mod Backups
pub mod Ensure
pub mod Saving
pub mod Stages
pub mod Reconcile
