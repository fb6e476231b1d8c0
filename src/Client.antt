-- ===== src/Client.antt =====
-- The package client.
pub mod Headers
pub mod Versions
pub mod Errors
pub mod Unfinished
pub mod Results
pub mod Act
pub mod Transport
pub mod Protocol
pub mod Caching
pub mod Negotiation
pub mod Connection
