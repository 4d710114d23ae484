-- ===== src/Models.antt =====
-- internal/models: which Kiro model a request goes to. Model IDs are texts.
pub mod Mapping
pub mod Effort
pub mod Catalog
pub mod Resolve
pub mod Listing
