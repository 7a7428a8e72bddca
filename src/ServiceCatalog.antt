-- ===== src/ServiceCatalog.antt =====
-- scripts/service_catalog.py: the catalog of services, what is generated from it, and its checks.
pub mod Checks
pub mod Paths
pub mod Routes
pub mod CarveOuts
pub mod Rendered
pub mod Regions
pub mod Names
pub mod References
pub mod Structure
pub mod Tests
pub mod Documents
pub mod Blueprints
pub mod Outputs
pub mod Descriptors
pub mod Explain
pub mod Commands
