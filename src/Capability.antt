-- ===== src/Capability.antt =====
-- internal/capability: packages, their staged bytes, the registry, and the services over it.
pub mod Snapshot
pub mod Yaml
pub mod PackageLimits
pub mod PackagePaths
pub mod Manifest
pub mod Skills
pub mod PackageFiles
pub mod PackageRecords
pub mod Loader
pub mod Types
pub mod Paths
pub mod Hierarchy
pub mod Registry
pub mod Limits
pub mod Read
pub mod Identifiers
pub mod Describe
pub mod Browse
pub mod Catalog
pub mod Search
