-- ===== src/Broker.antt =====
-- broker/broker.go: the broker. Its lock makes each method one step from a state to the next; what
-- runs in several steps (idempotent produce, committing a transaction) is modelled so.
pub mod State
pub mod Topics
pub mod Tenants
pub mod RawFetch
pub mod Produce
pub mod Consume
pub mod Log
pub mod Idempotent
pub mod Offsets
pub mod Transactions
pub mod SparseIndex
