-- ===== src/Server.antt =====
-- The package server: protocol versions, request metadata, the message handler and the
-- features that a server answers from.
pub mod Protocol
pub mod Meta
pub mod UriTemplate
pub mod Pagination
pub mod Context
pub mod Caching
pub mod Envelope
pub mod ArgPath
pub mod Completion
pub mod Session
pub mod Results
pub mod Initialize
pub mod Handle
pub mod Catalog
