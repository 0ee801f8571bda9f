-- ===== src/Sdk.antt =====
-- sdk: the client of the HTTP server, and the producer and consumer over a broker of their own.
pub mod Client
pub mod Local
pub mod Delivery
