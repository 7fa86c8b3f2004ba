-- ===== src/Ui.antt =====
-- internal/ui: the server of the dashboards and of their API.
pub mod Http
pub mod Config
pub mod Services
pub mod Respond
pub mod Frame
pub mod Envs
pub mod Kubeconfig
pub mod Pods
pub mod Logs
pub mod Funcs
pub mod Ttl
pub mod Templates
pub mod Router
pub mod Setup
