-- ===== src/Transport.antt =====
-- The package transport: values in HTTP headers, the mirrored MCP headers, and status codes.
pub mod HeaderValue
pub mod McpHeaders
pub mod Status
