-- ===== src/Controller.antt =====
-- internal/controller/shutdowngroup_controller.go, operation by operation.
pub mod Collect
pub mod Workloads
pub mod Group
pub mod Stored
pub mod Reconcile
