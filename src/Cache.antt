-- ===== src/Cache.antt =====
-- src/basilisp/core_cache.py: the persistent cache policies, over an interface of persistent maps.
pub mod Map
pub mod Fifo
pub mod Lru
pub mod Ttl
pub mod Lu
pub mod Lirs
pub mod Mapping
