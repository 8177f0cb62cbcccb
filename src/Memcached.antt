-- ===== src/Memcached.antt =====
-- hermit/apps/memcached/src: the cache server's tables.
pub mod Assoc
pub mod Cache
pub mod Heap
pub mod Lru
pub mod Slabs
pub mod Items
pub mod Util
pub mod Commands
pub mod Tokens
pub mod Conns
pub mod Tests
