-- ===== src/Management.antt =====
-- management/api/server.go: the HTTP server over a broker.
pub mod Api
pub mod Records
pub mod Offsets
pub mod Transactions
pub mod Server
