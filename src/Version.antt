-- ===== src/Version.antt =====
-- internal/version and internal/output/version.go: target versions, the registry of features by
-- version, and the inspector that warns of features newer than the target.
pub mod Target
pub mod Registry
pub mod Features
pub mod Inspect
