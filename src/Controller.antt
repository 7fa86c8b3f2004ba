-- ===== src/Controller.antt =====
-- internal/controller/ephemeralenv_controller.go: the reconciler of environments.
pub mod Base
pub mod Sanitize
pub mod Resources
pub mod Routes
pub mod Components
pub mod Discovery
pub mod Cleanup
pub mod Reconcile
mod Frame
pub mod Traced
pub mod Setup
