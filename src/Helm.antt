-- ===== src/Helm.antt =====
-- internal/helm/client.go: the interface `Client` that the controller calls, its client of
-- the Helm SDK, and its mock.
pub mod Client
pub mod Store
pub mod Sdk
pub mod Mock
pub mod Recorded
