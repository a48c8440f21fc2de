-- ===== src/Sdk.antt =====
-- The client: packages sdk/data/stream and sdk/meta.
pub mod ExtentCache
pub mod Meta
