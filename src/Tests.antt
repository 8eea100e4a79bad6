-- ===== src/Tests.antt =====
-- Runs of the modelled code on small inputs, and the properties at them.
mod Encoders
mod SnapshotTests
mod RegistryTests
mod ReadTests
mod DescribeTests
mod SearchTests
mod ClientTests
mod ManifestTests
mod HierarchyTests
mod CatalogTests
mod JsonTests
