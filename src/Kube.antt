-- ===== src/Kube.antt =====
-- What the controller uses of Kubernetes: the objects it writes, and the client behind an interface.
pub mod Objects
pub mod Client
pub mod Library
pub mod Trace
