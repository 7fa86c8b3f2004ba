-- ===== src/Tests.antt =====
-- A small cluster, and runs on it.
pub mod Cluster
pub mod Site
mod Runs
mod Progress
mod Startup
mod Lifetimes
mod Objects
mod Releases
mod Served
