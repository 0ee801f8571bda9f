-- ===== src/Tests.antt =====
-- The theorems at concrete inputs, and runs of the definitions.
mod Samples
mod Segments
mod Brokers
mod Producers
mod Groups
mod Rafts
mod Logs
mod Streams
mod Http
mod Operators
mod Indexes
mod Queries
mod Windows
mod Transports
mod Clients
mod Restores
mod Rounds
mod Servers
