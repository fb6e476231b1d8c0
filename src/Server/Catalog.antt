-- ===== src/Server/Catalog.antt =====
-- server/tool_catalog.go: the searchable catalog of tools and its two meta tools.
pub mod Limits
pub mod Reply
pub mod Batch
pub mod Fit
pub mod Render
pub mod Execute
pub mod Terms
pub mod Search
pub mod Registry
pub mod Calls
pub mod Handlers
pub mod Tests
