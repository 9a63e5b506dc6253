-- ===== src/Controller.antt =====
-- controller/controller.go: the reconciliation loop and its schedule.
pub mod Schedule
pub mod ScheduleLaws
pub mod Run
pub mod RunLaws
