-- ===== src/Cache.antt =====
-- src/cache: the caches. L3 and the smart cache stand on Redis.
pub mod L2
