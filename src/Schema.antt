-- ===== src/Schema.antt =====
-- schema: registries of schemas.
pub mod Advanced
pub mod Registry
