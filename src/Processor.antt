-- ===== src/Processor.antt =====
-- processor: streams of records and of events.
pub mod Cep
pub mod Windows
pub mod Values
pub mod Operators
pub mod Aggregates
