-- ===== src/Api.antt =====
-- The package api/v1alpha1: the custom resources and their helper methods.
pub mod Types
pub mod Template
pub mod Helpers
